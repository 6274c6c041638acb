-- ===== src/External/Toml.antt =====
-- The values of a `toml` table, as the configuration reads them.
use robustmq_geek.Prelude.{◌≡◌, some, Option, ◌∷◌, [], ◌++◌, Text}

pub record Toml : Type 1 where
  pub Value : Type 0
  pub as_str : Value → Option Text
  pub to_string : Value → Text

-- A value prints in the syntax of the format: a string with quotes round it, if it has nothing to
-- escape.
pub record IsToml (T : Toml) (plain : Text → Type 0) : Type 0 where
  pub to_string-as_str :
      (v : T.Value) (text : Text)
      → T.as_str v ≡ some text
      → plain text
      → T.to_string v ≡ b'"' ∷ text ++ b'"' ∷ []
