-- ===== src/Settings/Order.antt =====
-- A settings file with its five attributes in the order in which the code looks for them.
use lielas.Base.{
  ℕ, suc, ◌∙◌, ◌+◌, ◌-◌, ◌<◌, ◌≡◌, refl, true, false, none, some, List, [], ◌∷◌, ◌++◌, Bytes, ◌==◌,
  arith, ltb, leb, length, get_elem?, codes, done,
}
use lielas.Json.{Token, token_text, is_named}
use lielas.Settings.{
  max_file_len, attr_len, SqlSettings, Source, parsed, absent, copied, parse_attribute, behind,
  load_round, load_rounds, set_load,
}

-- A string token with the name of an attribute, and its value.
pub record IsPair (file attr : Bytes) (k v : Token) : Type 0 where
  pub kind : k.is_string ≡ true
  pub named : is_named attr file k ≡ true
  pub short : v.end - v.start < attr_len

-- A token at which the text goes on.
abbrev pub IsInside : Bytes → Token → Type 0
IsInside file t = (c : ℕ) × (get_elem? file t.start ≡ some c) × ((c == 0) ≡ false)

parse_attribute-pair :
    (file attr val : Bytes) (nt : ℕ) (tokens : List Token) (k v : Token)
    → IsPair file attr k v
    → get_elem? tokens nt ≡ some k
    → get_elem? tokens (nt + 1) ≡ some v
    → parse_attribute file attr val nt tokens ≡ done (parsed, copied (token_text file v) val)
unfolding parse_attribute
parse_attribute-pair file attr val nt tokens k v p here next =
    let fits : ltb (v.end - v.start) attr_len ≡ true = ground (arith, p.short) in
    rw (here, next, p.kind, p.named, fits, parse_attribute) refl

parse_attribute-object :
    (file attr val : Bytes) (nt : ℕ) (tokens : List Token) (k : Token)
    → k.is_string ≡ false
    → get_elem? tokens nt ≡ some k
    → parse_attribute file attr val nt tokens ≡ done (absent, val)
unfolding parse_attribute
parse_attribute-object file attr val nt tokens k kind here = rw (here, kind, parse_attribute) refl

load_rounds-step :
    (fuel : ℕ) (file : Bytes) (tokens : List Token) (nt nt' : ℕ) (t : Token) (s s' : SqlSettings)
    → get_elem? tokens nt ≡ some t
    → IsInside file t
    → load_round file tokens nt s ≡ done (nt', s')
    → load_rounds (suc fuel) file tokens nt s ≡ load_rounds fuel file tokens nt' s'
unfolding load_rounds
load_rounds-step fuel file tokens nt nt' t s s' here (c, inside, goes) round =
    rw (here, inside, goes, round, load_rounds) refl

load_rounds-end :
    (fuel : ℕ) (file : Bytes) (tokens : List Token) (nt : ℕ) (s : SqlSettings)
    → get_elem? tokens nt ≡ none
    → load_rounds (suc fuel) file tokens nt s ≡ done s
unfolding load_rounds
load_rounds-end fuel file tokens nt s out = rw (out, load_rounds) refl

-- The settings after the five values are copied.
abbrev pub with_values : Bytes → (v₁ v₂ v₃ v₄ v₅ : Token) → SqlSettings → SqlSettings
with_values file v₁ v₂ v₃ v₄ v₅ s = record {
  sql_user = copied (token_text file v₁) s.sql_user;
  sql_pass = copied (token_text file v₂) s.sql_pass;
  sql_db = copied (token_text file v₃) s.sql_db;
  sql_host = copied (token_text file v₄) s.sql_host;
  sql_port = copied (token_text file v₅) s.sql_port;
}

-- A file shorter than its buffer is loaded, where jsmn finds in the buffer, with what stands behind
-- the file, one object with the five attributes in the order of the code: `set_load` returns 0, and
-- each value is written at the start of its buffer, without a zero behind it; the values are
-- shorter than 256 bytes.
pub set_load-in_order :
    (src : Source) (file : Bytes) (o k₁ v₁ k₂ v₂ k₃ v₃ k₄ v₄ k₅ v₅ : Token) (s : SqlSettings)
    → src.file ≡ some file
    → length file < max_file_len
    → src.is_read ≡ true
    → let text = file ++ src.left in
      src.parse text ≡ some (o ∷ k₁ ∷ v₁ ∷ k₂ ∷ v₂ ∷ k₃ ∷ v₃ ∷ k₄ ∷ v₄ ∷ k₅ ∷ v₅ ∷ [])
      → o.is_string ≡ false
      → IsInside text o
      → IsInside text k₁
      → IsPair text (codes "dbUser") k₁ v₁
      → IsPair text (codes "dbPassword") k₂ v₂
      → IsPair text (codes "dbName") k₃ v₃
      → IsPair text (codes "sqlServerAddress") k₄ v₄
      → IsPair text (codes "sqlServerPort") k₅ v₅
      → set_load src s ≡ done (false, with_values text v₁ v₂ v₃ v₄ v₅ s)
unfolding set_load load_round behind
set_load-in_order src file o k₁ v₁ k₂ v₂ k₃ v₃ k₄ v₄ k₅ v₅ s is short read tokens kind in₀ in₁ p₁ p₂
      p₃ p₄ p₅ =
    let text = file ++ src.left in
    let ts = o ∷ k₁ ∷ v₁ ∷ k₂ ∷ v₂ ∷ k₃ ∷ v₃ ∷ k₄ ∷ v₄ ∷ k₅ ∷ v₅ ∷ [] in
    let fits : leb max_file_len (length file) ≡ false = ground (arith, short) in
    let object = λ (attr val : Bytes). parse_attribute-object text attr val 0 ts o kind refl in
    let q₁ = parse_attribute-pair text (codes "dbUser") s.sql_user 1 ts k₁ v₁ p₁ refl refl in
    let q₂ = parse_attribute-pair text (codes "dbPassword") s.sql_pass 3 ts k₂ v₂ p₂ refl refl in
    let q₃ = parse_attribute-pair text (codes "dbName") s.sql_db 5 ts k₃ v₃ p₃ refl refl in
    let q₄ =
      parse_attribute-pair text (codes "sqlServerAddress") s.sql_host 7 ts k₄ v₄ p₄ refl refl in
    let q₅ = parse_attribute-pair text (codes "sqlServerPort") s.sql_port 9 ts k₅ v₅ p₅ refl refl in
    let first : load_round text ts 0 s ≡ done (1, s) =
      rw
        (
          object (codes "dbUser") s.sql_user,
          object (codes "dbPassword") s.sql_pass,
          object (codes "dbName") s.sql_db,
          object (codes "sqlServerAddress") s.sql_host,
          object (codes "sqlServerPort") s.sql_port,
        )
        refl in
    let second : load_round text ts 1 s ≡ done (12, with_values text v₁ v₂ v₃ v₄ v₅ s) =
      rw (q₁, q₂, q₃, q₄, q₅) refl in
    let last = with_values text v₁ v₂ v₃ v₄ v₅ s in
    let all : load_rounds 11 text ts 0 s ≡ done last =
      load_rounds-step 10 text ts 0 1 o s s refl in₀ first
      ∙ load_rounds-step 9 text ts 1 12 k₁ s last refl in₁ second
      ∙ load_rounds-end 8 text ts 12 last refl in
    rw (is, fits, read, tokens, all) refl
