-- ===== src/Json.antt =====
-- What jsmn, the parser of JSON that the gateway uses, tells of a text. jsmn itself is not
-- modelled.
use lielas.Base.{ℕ, ◌-◌, Bool, Bytes, starts_with, take, drop}

-- A token: whether it is a string, and where it stands in the text.
pub record Token : Type 0 where
  pub is_string : Bool
  pub start : ℕ
  pub end : ℕ

abbrev pub token_text : Bytes → Token → Bytes
token_text text t = take (t.end - t.start) (drop t.start text)

-- `strncmp(&text[t.start], name, strlen(name)) == 0`
abbrev pub is_named : Bytes → Bytes → Token → Bool
is_named name text t = starts_with name (drop t.start text)
