-- ===== src/Tests/Settings.antt =====
-- A settings file of five attributes.
use lielas.Base.{
  ℕ, ◌≡◌, refl, Bool, true, false, some, [], ◌∷◌, ◌++◌, Bytes, codes, replicate, starts_with, arith,
  done,
}
use lielas.Json.{Token}
use lielas.Settings.{SqlSettings, Source, set_load}
use lielas.Settings.Order.{with_values, set_load-in_order}

abbrev config : Bytes
config =
    codes
      "{\"dbUser\":\"u\",\"dbPassword\":\"p\",\"dbName\":\"n\",\"sqlServerAddress\":\"h\",\"sqlServerPort\":\"5\"}"

abbrev token : Bool → ℕ → ℕ → Token
token is_string start end = record { is_string = is_string; start = start; end = end }

abbrev source : Source
source = record {
  file = some config;
  is_read = true;
  left = 0 ∷ [];
  parse = λ s. some (
      token false 0 87
      ∷ token true 2 8
      ∷ token true 11 12
      ∷ token true 15 25
      ∷ token true 28 29
      ∷ token true 32 38
      ∷ token true 41 42
      ∷ token true 45 61
      ∷ token true 64 65
      ∷ token true 68 81
      ∷ token true 84 85
      ∷ []);
}

abbrev standard : SqlSettings
standard = record {
  sql_user = replicate 10 0;
  sql_pass = replicate 10 0;
  sql_db = replicate 10 0;
  sql_host = replicate 10 0;
  sql_port = replicate 10 0;
}

set_load-in_order_example :
    set_load source standard
    ≡ done (
      false,
      with_values
          (config ++ 0 ∷ [])
          (token true 11 12)
          (token true 28 29)
          (token true 41 42)
          (token true 64 65)
          (token true 84 85)
          standard,
    )
unfolding starts_with
set_load-in_order_example =
    set_load-in_order source config (token false 0 87) (token true 2 8) (token true 11 12)
      (token true 15 25) (token true 28 29) (token true 32 38) (token true 41 42) (token true 45 61)
      (token true 64 65) (token true 68 81) (token true 84 85) standard refl (ground arith) refl
      refl refl (b'{', refl, refl) (b'd', refl, refl)
      (record { kind = refl; named = refl; short = omega arith })
      (record { kind = refl; named = refl; short = omega arith })
      (record { kind = refl; named = refl; short = omega arith })
      (record { kind = refl; named = refl; short = omega arith })
      (record { kind = refl; named = refl; short = omega arith })
