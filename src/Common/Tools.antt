-- ===== src/Common/Tools.antt =====
-- common/base/src/tools.rs, over a file system.
use robustmq_geek.Prelude.{
  Bool, ◌++◌, Text, codes, Result, ok, err, Action, ◌>>=◌, pure, gets, if◌then◌else◌, map_err,
}
use robustmq_geek.Common.Errors.{Fault, RobustMqError, commmon_error, io_json_error}

-- `std::fs` and `Path::exists`.
pub record Files : Type 1 where
  pub World : Type 0
  pub exists : Text → World → Bool
  pub create_dir_all : Text → Action World (Result Fault (Unit {0}))
  pub read_to_string : Text → World → Result Fault Text

module _ ⦃F : Files⦄ where
  unfoldable pub create_fold : Text → Action F.World (Result RobustMqError (Unit {0}))
  create_fold fold = do
    there ← gets (F.exists fold)
    if there
        then pure (ok tt)
        else do result ← F.create_dir_all fold; pure (map_err io_json_error result)

  abbrev pub file_exists : Text → F.World → Bool
  file_exists = F.exists

  unfoldable pub read_file : Text → F.World → Result RobustMqError Text
  read_file path files =
      if F.exists path files
      then map_err io_json_error (F.read_to_string path files)
      else err (commmon_error (codes "File " ++ (path ++ codes " does not exist")))
