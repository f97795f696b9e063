-- ===== src/Lbus/Settings/Table.antt =====
-- What reading and writing several settings does to the table.
use lielas.Base.{
  ◌≡◌, refl, ◌∙◌, false, some, List, [], ◌∷◌, Bytes, length, done, arith, All, str_eq, ◌<◌, ◌≢◌,
}
use lielas.Lbus.Settings.{
  Database, buf_len, pairs, get_setting, set_setting, get_settings_all, set_settings_all,
  load_settings,
}

-- The statements act as SQL documents on a table whose names are unique: updating a name that has a
-- row, to a value without quotes, succeeds and changes the value of that name only.
pub record IsTable (b : Database) : Type 1 where
  pub update_ok :
      (name value old : Bytes) (d : b.Db)
      → b.select name d ≡ some old
      → All (λ c. c ≢ b'\'') value
      → (d' : b.Db) × (b.update name value d ≡ some d')
        × (b.select name d' ≡ some value)
        × ((m : Bytes) → str_eq m name ≡ false → b.select m d' ≡ b.select m d)

module _ (b : Database) (table : IsTable b) where
  open b use {Db, select}
  open table use {update_ok}

  -- The name differs from each of the names.
  abbrev pub IsOther : Bytes → List Bytes → Type 0
  IsOther m names = All (λ n. str_eq m n ≡ false) names

  -- No name occurs twice.
  abbrev pub AreDistinct : List Bytes → Type 0
  AreDistinct [] = Unit
  AreDistinct (n ∷ ns) = IsOther n ns × All (λ m. str_eq m n ≡ false) ns × AreDistinct ns

  -- Each name has the value.
  abbrev pub Holds : List Bytes → List Bytes → Db → Type 0
  Holds [] [] d = Unit
  Holds (v ∷ vs) (n ∷ ns) d = (select n d ≡ some v) × Holds vs ns d
  Holds _ _ d = ⊥

  -- Each name has a row.
  abbrev pub HaveRows : List Bytes → Db → Type 0
  HaveRows ns d = All (λ n. (v : Bytes) × (select n d ≡ some v)) ns

  abbrev pub IsQuotable : Bytes → Type 0
  IsQuotable v = All (λ c. c ≢ b'\'') v

  HaveRows-kept :
      (ns : List Bytes) (n : Bytes) (d d' : Db)
      → ((m : Bytes) → str_eq m n ≡ false → select m d' ≡ select m d)
      → All (λ m. str_eq m n ≡ false) ns
      → HaveRows ns d
      → HaveRows ns d'
  HaveRows-kept [] n d d' same other rows = tt
  HaveRows-kept (m ∷ ns) n d d' same other rows =
      let ((v, e), others) = rows in
      ((v, same m other.0 ∙ e), HaveRows-kept ns n d d' same other.1 others)

  -- Reading values that fit their buffers gives them all.
  pub get_settings_all-Holds :
      (vs dests ns : List Bytes) (d : Db)
      → Holds vs ns d
      → length dests ≡ length ns
      → All (λ v. length v < buf_len) vs
      → get_settings_all b (pairs dests ns) d ≡ done (false, vs)
  unfolding get_settings_all get_setting
  get_settings_all-Holds [] [] [] d h same short = refl
  get_settings_all-Holds (v ∷ vs) (t ∷ dests) (n ∷ ns) d h same short =
      ground (arith, h.0, short.0, get_settings_all-Holds vs dests ns d h.1 (omega arith) short.1)
  get_settings_all-Holds [] (t ∷ dests) [] d h same short = absurd (omega arith)
  get_settings_all-Holds (v ∷ vs) [] (n ∷ ns) d h same short = absurd (omega arith)
  get_settings_all-Holds [] _ (n ∷ ns) d h same short = absurd h
  get_settings_all-Holds (v ∷ vs) _ [] d h same short = absurd h

  -- Writing values to distinct names with rows gives each its value and leaves every other name.
  pub set_settings_all-Holds :
      (vs ns : List Bytes) (d : Db)
      → AreDistinct ns
      → HaveRows ns d
      → All IsQuotable vs
      → length vs ≡ length ns
      → (d' : Db) × (set_settings_all b vs ns d ≡ (false, d'))
        × Holds vs ns d'
        × ((m : Bytes) → IsOther m ns → select m d' ≡ select m d)
  unfolding set_settings_all set_setting
  set_settings_all-Holds [] [] d apart rows plain same = (d, refl, tt, λ m h. refl)
  set_settings_all-Holds (v ∷ vs) [] d apart rows plain same = absurd (omega arith)
  set_settings_all-Holds [] (n ∷ ns) d apart rows plain same = absurd (omega arith)
  set_settings_all-Holds (v ∷ vs) (n ∷ ns) d apart rows plain same =
      let ((old, e), more) = rows in
      let (other, later, apart') = apart in
      let (d₁, wrote, holds, kept) = update_ok n v old d e plain.0 in
      let rows' = HaveRows-kept ns n d d₁ kept later more in
      let (d₂, rest, holds', kept') =
        set_settings_all-Holds vs ns d₁ apart' rows' plain.1 (omega arith) in
      (
        d₂,
        ground (arith, wrote, rest),
        (kept' n other ∙ holds, holds'),
        λ m h. kept' m h.1 ∙ kept m h.0,
      )

  -- So does reading values without regard to failures.
  pub load_settings-Holds :
      (vs dests ns : List Bytes) (d : Db)
      → Holds vs ns d
      → length dests ≡ length ns
      → All (λ v. length v < buf_len) vs
      → load_settings b (pairs dests ns) d ≡ done vs
  unfolding load_settings get_setting
  load_settings-Holds [] [] [] d h same short = refl
  load_settings-Holds (v ∷ vs) (t ∷ dests) (n ∷ ns) d h same short =
      ground (arith, h.0, short.0, load_settings-Holds vs dests ns d h.1 (omega arith) short.1)
  load_settings-Holds [] (t ∷ dests) [] d h same short = absurd (omega arith)
  load_settings-Holds (v ∷ vs) [] (n ∷ ns) d h same short = absurd (omega arith)
  load_settings-Holds [] _ (n ∷ ns) d h same short = absurd h
  load_settings-Holds (v ∷ vs) _ [] d h same short = absurd h
