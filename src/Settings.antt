-- ===== src/Settings.antt =====
-- The settings file of the gateway, liegw/src/settings.c. The file is read into a buffer, and jsmn
-- splits it into tokens; a token behind the last one that jsmn wrote is not set, and reading it is
-- a fault.
pub mod Order
use lielas.Base.{
  ℕ, zero, suc, ◌+◌, ◌-◌, Bool, true, false, not, Option, none, some, List, [], ◌∷◌, ◌++◌, Bytes,
  ◌==◌, if◌then◌else◌, ltb, leb, length, get_elem?, drop, codes, Run, done, fault, out_of_fuel,
  ◌>>=◌,
}
use lielas.Json.{Token, token_text, is_named}

-- `SET_MAX_FILE_LEN` and `SET_ATTR_LEN`
abbrev pub max_file_len : ℕ
max_file_len = 10000

abbrev pub attr_len : ℕ
attr_len = 256

-- The buffers of the settings that the file can set; the others keep their standard values.
pub record SqlSettings : Type 0 where
  pub sql_user : Bytes
  pub sql_pass : Bytes
  pub sql_db : Bytes
  pub sql_host : Bytes
  pub sql_port : Bytes

-- What the file system and jsmn give: the file, none if it cannot be opened, whether it is read,
-- what the buffer holds behind the file, where nothing is written, and the tokens of a buffer, none
-- if it is refused. A text that ends early is not refused.
pub record Source : Type 0 where
  pub file : Option Bytes
  pub is_read : Bool
  pub left : Bytes
  pub parse : Bytes → Option (List Token)

-- 1, -1 and 0 of `parseAttribute`.
pub data Found : Type 0 where
  parsed too_big absent : Found

-- `strncpy` of as many bytes as the token has: no zero is written behind them.
abbrev pub copied : Bytes → Bytes → Bytes
copied text val = text ++ drop (length text) val

-- The attribute at token `nt`, whose value is the next token.
unfoldable pub parse_attribute :
    Bytes → (attr val : Bytes) → (nt : ℕ) → List Token → Run (Found × Bytes)
parse_attribute file attr val nt tokens = elim (get_elem? tokens nt) [
  | none ↦ fault
  | some t ↦
      let value : Run (Found × Bytes) = (elim (get_elem? tokens (nt + 1)) [
        | none ↦ fault
        | some v ↦
            if ltb (v.end - v.start) attr_len
            then done (parsed, copied (token_text file v) val)
            else done (too_big, val)
      ]) in
      if t.is_string
      then (if is_named attr file t then value else done (absent, val))
      else done (absent, val)
]

-- The token to look at next.
unfoldable pub behind : Found → ℕ → ℕ
behind parsed nt = nt + 2
behind too_big nt = nt
behind absent nt = nt

-- One round of the loop: the five attributes in turn, each from where the one before has led.
unfoldable pub load_round : Bytes → List Token → ℕ → SqlSettings → Run (ℕ × SqlSettings)
load_round file tokens nt s =
    parse_attribute file (codes "dbUser") s.sql_user nt tokens >>= λ (f₁, user).
    let n₁ = behind f₁ nt in
    parse_attribute file (codes "dbPassword") s.sql_pass n₁ tokens >>= λ (f₂, pass).
    let n₂ = behind f₂ n₁ in
    parse_attribute file (codes "dbName") s.sql_db n₂ tokens >>= λ (f₃, name).
    let n₃ = behind f₃ n₂ in
    parse_attribute file (codes "sqlServerAddress") s.sql_host n₃ tokens >>= λ (f₄, host).
    let n₄ = behind f₄ n₃ in
    parse_attribute file (codes "sqlServerPort") s.sql_port n₄ tokens >>= λ (f₅, port). done (
      behind f₅ n₄ + 1,
      record { sql_user = user; sql_pass = pass; sql_db = name; sql_host = host; sql_port = port },
    )

-- A round moves on by one token at least.
unfoldable pub load_rounds : ℕ → Bytes → List Token → ℕ → SqlSettings → Run SqlSettings
load_rounds zero file tokens nt s = if ltb nt (length tokens) then out_of_fuel else done s
load_rounds (suc fuel) file tokens nt s =
    let rest = (load_round file tokens nt s >>= λ (nt', s'). load_rounds fuel file tokens nt' s') in
    elim (get_elem? tokens nt) [
      | none ↦ done s
      | some t ↦ elim (get_elem? file t.start) [
        | none ↦ fault
        | some c ↦ if c == 0 then done s else rest
      ]
    ]

-- True where the C function returns -1.
unfoldable pub set_load : Source → SqlSettings → Run (Bool × SqlSettings)
set_load src s = elim src.file [
  | none ↦ done (true, s)
  | some file ↦
      let loaded : Run (Bool × SqlSettings) = (elim (src.parse (file ++ src.left)) [
        | none ↦ done (true, s)
        | some tokens ↦
            load_rounds (length tokens) (file ++ src.left) tokens 0 s >>= λ s'. done (false, s')
      ]) in
      if leb max_file_len (length file)
      then done (true, s)
      else if src.is_read
      then loaded
      else done (true, s)
]
