-- ===== src/Lbus/Settings.antt =====
-- The settings table of ldb.c, which is read and written by SQL statements; the database is a
-- parameter.
pub mod Table
use lielas.Base.{
  ℕ, Bool, true, false, Option, none, some, List, [], ◌∷◌, Bytes, if◌then◌else◌, ltb, length, Run,
  done, fault, ◌>>=◌,
}

-- `SELECT value … WHERE name=…`: the value, if the statement gives exactly one row. `UPDATE … SET
-- value=… WHERE name=…`: the database after it, if the statement succeeds.
pub record Database : Type 1 where
  pub Db : Type 0
  pub select : (name : Bytes) → Db → Option Bytes
  pub update : (name value : Bytes) → Db → Option Db

-- `LBUS_BUF_SIZE`
abbrev pub buf_len : ℕ
buf_len = 200

-- Each buffer with the name of the setting that is read into it.
abbrev pub pairs : List Bytes → List Bytes → List (Bytes × Bytes)
pairs (x ∷ xs) (y ∷ ys) = (x, y) ∷ pairs xs ys
pairs _ _ = []

module _ (b : Database) where
  open b use {Db, select, update}

  -- `lielas_getLDBSetting`, into a buffer that holds the string `dest`. True where the C function
  -- returns -1. A value that leaves no room for its zero makes a string without an end.
  unfoldable pub get_setting : Bytes → Bytes → Db → Run (Bool × Bytes)
  get_setting dest name d = elim (select name d) [
    | none ↦ done (true, dest)
    | some v ↦ if ltb (length v) buf_len then done (false, v) else fault
  ]

  -- `lielas_setLDBSetting`
  unfoldable pub set_setting : Bytes → Bytes → Db → Bool × Db
  set_setting val name d = elim (update name val d) [ none ↦ (true, d) | some d' ↦ (false, d') ]

  -- Several settings in turn, each into its buffer, whether it is found or not.
  unfoldable pub load_settings : List (Bytes × Bytes) → Db → Run (List Bytes)
  load_settings [] d = done []
  load_settings ((dest, name) ∷ rest) d =
      get_setting dest name d >>= λ (failed, v). load_settings rest d >>= λ vs. done (v ∷ vs)

  -- Several settings in turn, up to the first that fails.
  unfoldable pub get_settings_all : List (Bytes × Bytes) → Db → Run (Bool × List Bytes)
  get_settings_all [] d = done (false, [])
  get_settings_all ((dest, name) ∷ rest) d =
      let later = get_settings_all rest d in
      get_setting dest name d >>= λ (failed, v).
      (if failed then done (true, []) else (later >>= λ (bad, vs). done (bad, v ∷ vs)))

  -- Several settings are written in turn, up to the first that fails.
  unfoldable pub set_settings_all : List Bytes → List Bytes → Db → Bool × Db
  set_settings_all (v ∷ vs) (name ∷ names) d =
      let (failed, d') = set_setting v name d in
      let rest = set_settings_all vs names d' in if failed then (true, d') else rest
  set_settings_all _ _ d = (false, d)
