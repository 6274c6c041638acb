-- ===== src/Common/Log.antt =====
-- common/base/src/log/placement_center.rs: `init_placement_center_log`, without what it prints.
use robustmq_geek.Prelude.{
  ℕ, zero, suc, [], ◌∷◌, ◌++◌, Text, codes, Result, ok, err, Action, ◌>>=◌, pure, panic, gets,
  within, if◌then◌else◌, starts_with,
}
use robustmq_geek.Common.Errors.{Fault}
use robustmq_geek.Common.Tools.{Files, create_fold, file_exists, read_file}
use robustmq_geek.Common.Config.{Process, placement_center_conf}

abbrev placeholder : Text
placeholder = codes "{$path}"

-- `content.replace("{$path}", ..)`, from the left; the number is that of the places that the
-- occurrence before still takes.
unfoldable pub replace_path : Text → ℕ → Text → Text
replace_path path skipped [] = []
replace_path path (suc skipped) (_ ∷ content) = replace_path path skipped content
replace_path path zero (c ∷ content) =
    let rest = replace_path path zero content in
    let after = replace_path path 6 content in
    if starts_with (c ∷ content) placeholder then path ++ after else c ∷ rest

-- `serde_yaml` at the type of the log's configuration, and `log4rs`.
pub record Logging (World : Type 0) : Type 1 where
  pub RawConfig : Type 0
  pub from_str : Text → Result Fault RawConfig
  pub init_raw_config : RawConfig → Action World (Result Fault (Unit {0}))

module _ {Value : Type 0} ⦃F : Files⦄ ⦃L : Logging F.World⦄ where
  abbrev with_files : {A : Type 0} → Action F.World A → Action (Process Value F.World) A
  with_files = within (λ s. s.files) (λ files s. record s { files = files })

  unfoldable pub init_placement_center_log : Action (Process Value F.World) (Unit {0})
  unfolding placement_center_conf create_fold read_file replace_path
  init_placement_center_log = do
    conf ← placement_center_conf
    there ← gets (λ s. file_exists conf.log.log_config s.files)
    if there
        then (do
          created ← with_files (create_fold conf.log.log_path)
          elim created [
            | ok _ ↦ do
              content ← gets (λ s. read_file conf.log.log_config s.files)
              elim content [
                | ok text ↦ elim (L.from_str (replace_path conf.log.log_path 0 text)) [
                  | ok config ↦ do
                    result ← with_files (L.init_raw_config config)
                    elim result [ ok _ ↦ pure tt | err e ↦ panic ]
                  | err e ↦ panic
                ]
                | err e ↦ panic
              ]
            | err e ↦ panic
          ])
        else panic
