-- ===== src/Config.antt =====
-- Configuration (`config.rs`): the sortcode check and the validation at start-up. Loading the
-- file and the environment belongs to the `figment` crate.
use cbsa_rust.Prelude.{Bool, ◌&&◌, ◌==◌, if◌then◌else◌, ℕ, Result, ok, err, length}
use cbsa_rust.Text.{Text, utf8, all_digits}
pub mod Laws

pub record Server : Type 0 where
  pub bind : Text

-- The connection settings, called `Database` in the source.
pub record DatabaseSettings : Type 0 where
  pub url : Text
  pub max_connections : ℕ

pub record Cbsa : Type 0 where
  pub sortcode : Text

pub record AppConfig : Type 0 where
  pub server : Server
  pub database : DatabaseSettings
  pub cbsa : Cbsa

pub data ConfigError : Type 0 where
  invalid_sortcode : Text → ConfigError

-- `s.len()` counts bytes.
unfoldable pub is_six_ascii_digits : Text → Bool
is_six_ascii_digits s = length (utf8 s) == 6 && all_digits (utf8 s)

unfoldable pub validate : AppConfig → Result ConfigError (Unit {0})
validate cfg =
    if is_six_ascii_digits cfg.cbsa.sortcode
    then ok tt
    else err (invalid_sortcode cfg.cbsa.sortcode)
