-- ===== src/Common/Config/Once.antt =====
-- The configuration is read once.
use mathlib.Core.Path.{subst}
use robustmq_geek.Prelude.{
  ◌≡◌, ◌∙◌, ◌⊎◌, inl, inr, refl, sym, ap, true, Option, none, some, Text, ok, done, panicked,
  panicked-done, done-injective, Bool-cases, Result-cases,
}
use robustmq_geek.Common.Tools.{Files, read_file}
use robustmq_geek.Common.Config.{
  PlacementCenterConfig, ConfigFields, ConfigFile, Process, completed, load, placement_center_conf,
  init_placement_center_conf_by_path,
}

module _ {Value : Type 0} ⦃F : Files⦄ ⦃P : ConfigFile Value⦄ where
  -- What a file says, with the defaults for what it leaves out.
  pub record Says (path : Text) (files : F.World) (config : PlacementCenterConfig Value)
      : Type 0 where
    pub exists : F.exists path files ≡ true
    pub text : Text
    pub read : F.read_to_string path files ≡ ok text
    pub fields : ConfigFields Value
    pub parsed : P.from_str text ≡ ok fields
    pub whole : completed fields ≡ config

  load-cases :
      (path : Text) (s : Process Value F.World)
      → (load path s ≡ panicked s)
        ⊎ ((config : PlacementCenterConfig Value) × (load path s ≡ done config s)
            × Says path s.files config)
  unfolding load read_file
  load-cases path s = elim (Bool-cases (F.exists path s.files)) [
    | inr missing ↦ inl (rw (missing) refl)
    | inl there ↦ elim (Result-cases (F.read_to_string path s.files)) [
      | inr (e, fails) ↦ inl (rw (there, fails) refl)
      | inl (text, reads) ↦ elim (Result-cases (P.from_str text)) [
        | inr (e, fails) ↦ inl (rw (there, reads, fails) refl)
        | inl (fields, parses) ↦ inr (
          completed fields,
          rw (there, reads, parses) refl,
          record {
            exists = there;
            text = text;
            read = reads;
            fields = fields;
            parsed = parses;
            whole = refl;
          },
        )
      ]
    ]
  ]

  settled :
      (path : Text) (t : Process Value F.World) (config : PlacementCenterConfig Value)
      → t.conf ≡ some config
      → (placement_center_conf t ≡ done config t)
        × (init_placement_center_conf_by_path path t ≡ done config t)
  unfolding init_placement_center_conf_by_path placement_center_conf
  settled path t config p = (rw p refl, rw p refl)

  init-cases :
      (path : Text) (conf : Option (PlacementCenterConfig Value)) (files : F.World)
      (t : Process Value F.World) (config : PlacementCenterConfig Value)
      → init_placement_center_conf_by_path path (record { conf = conf; files = files })
        ≡ done config t
      → ((conf ≡ some config) ⊎ Says path files config) × (t.conf ≡ some config)
  unfolding init_placement_center_conf_by_path
  init-cases path (some old) files t config p =
      let (same, still) = done-injective p in
      (inl (ap some same), ap (λ x. x.conf) (sym still) ∙ ap some same)
  init-cases path none files t config p =
      elim (load-cases path (record { conf = none; files = files })) [
        | inl fails ↦ elim (panicked-done (rw fails at p)) [ ]
        | inr (new, loads, says) ↦
            let (same, still) = done-injective (rw loads at p) in
            (inr (subst (Says path files) same says), ap (λ x. x.conf) (sym still) ∙ ap some same)
      ]

  -- When the configuration has been initialized by a path, it is the one that was there before or,
  -- if there was none, what the file at the path says, with the defaults for what that leaves out;
  -- `placement_center_conf` returns it from then on, and so does every later call that is to
  -- initialize it, whatever its path and whatever has become of the files.
  pub init-once :
      (path later : Text) (s t : Process Value F.World) (files : F.World)
      (config : PlacementCenterConfig Value)
      → init_placement_center_conf_by_path path s ≡ done config t
      → ((s.conf ≡ some config) ⊎ Says path s.files config)
        × (placement_center_conf t ≡ done config t)
        × (init_placement_center_conf_by_path later (record t { files = files })
            ≡ done config (record t { files = files }))
  init-once path later s t files config p =
      let (from, kept) = init-cases path s.conf s.files t config p in
      (
        from,
        (settled later t config kept).0,
        (settled later (record t { files = files }) config kept).1,
      )
