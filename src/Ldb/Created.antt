-- ===== src/Ldb/Created.antt =====
-- After the creation all tables exist, and the settings have their first values.
use lielas.Base.{
  ◌≡◌, refl, ◌∙◌, ap, Bool, true, false, List, [], ◌∷◌, ◌++◌, append-nil, append_assoc, All, inl,
  inr, Bool-cases, Bytes, arith, if◌then◌else◌, str_eq, str_eq_refl, str_eq_iff, codes, ◌||◌,
}
use lielas.Sql.{
  Value, text, number, name, Server, Answer, tuples, relname, create, insert, any_row, row_is,
  table_missing,
}
use lielas.Ldb

abbrev pub Row : Type 0
Row = List (Bytes × Value)

abbrev value_text : Value → Bytes
value_text (text t) = t
value_text (number t) = t
value_text (name t) = t

-- The text of the first column of a row, which is its key in every table of the gateway.
abbrev pub key : Row → Bytes
key [] = []
key ((c, v) ∷ r) = value_text v

unfoldable pub has_key : Bytes → List Row → Bool
has_key k [] = false
has_key k (r ∷ rs) = str_eq (key r) k || has_key k rs

unfoldable pub are_new : List Row → List Row → Bool
are_new old [] = true
are_new old (r ∷ rs) = if has_key (key r) old then false else are_new (old ++ r ∷ []) rs

-- What SQL documents of the statements, by the tables that exist and by their rows.
pub record IsServer (v : Server) : Type 1 where
  pub has : Bytes → v.Db → Bool
  pub rows : Bytes → v.Db → List Row
  pub listed :
      (t : Bytes) (d : v.Db)
      → v.exec (relname t) d
        ≡ (tuples (codes "relname" ∷ []) (if has t d then (t ∷ []) ∷ [] else []), d)
  pub created :
      (t c : Bytes) (d : v.Db)
      → has t d ≡ false
      → (has t (v.exec (create t c) d).1 ≡ true) × (rows t (v.exec (create t c) d).1 ≡ [])
  pub create_others :
      (t c u : Bytes) (d : v.Db)
      → str_eq u t ≡ false
      → (has u (v.exec (create t c) d).1 ≡ has u d) × (rows u (v.exec (create t c) d).1 ≡ rows u d)
  pub inserted :
      (t : Bytes) (r : Row) (d : v.Db)
      → has t d ≡ true
      → has_key (key r) (rows t d) ≡ false
      → rows t (v.exec (insert t r) d).1 ≡ rows t d ++ r ∷ []
  pub insert_others :
      (t u : Bytes) (r : Row) (d : v.Db)
      → str_eq u t ≡ false
      → rows u (v.exec (insert t r) d).1 ≡ rows u d
  pub insert_has : (t u : Bytes) (r : Row) (d : v.Db) → has u (v.exec (insert t r) d).1 ≡ has u d

-- A table with the text behind its name and its first rows.
pub record Spec : Type 0 where
  pub table : Bytes
  pub content : Bytes
  pub first : List Row

abbrev pub before_settings : List Spec
before_settings =
    record { table = Ldb.lbus_table; content = Ldb.lbus_content; first = [] }
    ∷ record { table = Ldb.users_table; content = Ldb.users_content; first = Ldb.users_rows }
    ∷ record { table = Ldb.device_groups_table; content = Ldb.device_groups_content; first = [] }
    ∷ record { table = Ldb.user_groups_table; content = Ldb.user_groups_content; first = [] }
    ∷ record { table = Ldb.devices_table; content = Ldb.devices_content; first = [] }
    ∷ record { table = Ldb.moduls_table; content = Ldb.moduls_content; first = [] }
    ∷ record { table = Ldb.channels_table; content = Ldb.channels_content; first = [] }
    ∷ record { table = Ldb.data_table; content = Ldb.data_content; first = [] }
    ∷ []

abbrev pub settings_on : List Spec
settings_on =
    record { table = Ldb.settings_table; content = Ldb.settings_content; first = Ldb.settings_rows }
    ∷ record { table = Ldb.events_table; content = Ldb.events_content; first = [] }
    ∷ []

-- The tables of the gateway.
abbrev pub specs : List Spec
specs = before_settings ++ settings_on

unfoldable pub create_specs : (v : Server) → List Spec → v.Db → v.Db
create_specs v [] d = d
create_specs v (p ∷ ps) d = create_specs v ps (Ldb.create_table v p.table p.content p.first d)

create_tables-specs : (v : Server) (d : v.Db) → Ldb.create_tables v d ≡ create_specs v specs d
unfolding Ldb.create_tables Ldb.create_lbus_table Ldb.create_users_table
    Ldb.create_device_groups_table Ldb.create_user_groups_table Ldb.create_devices_table
    Ldb.create_moduls_table Ldb.create_channels_table Ldb.create_data_table
    Ldb.create_settings_table Ldb.create_events_table create_specs
create_tables-specs v d = refl

create_specs-append :
    (v : Server) (ps qs : List Spec) (d : v.Db)
    → create_specs v (ps ++ qs) d ≡ create_specs v qs (create_specs v ps d)
unfolding create_specs
create_specs-append v [] qs d = refl
create_specs-append v (p ∷ ps) qs d = create_specs-append v ps qs _

module _ (v : Server) (s : IsServer v) where
  open s use {has, rows, listed, created, create_others, inserted, insert_others, insert_has}

  table_missing-has :
      (t : Bytes) (d : v.Db)
      → (has t d ≡ true → table_missing v t d ≡ (false, d))
        × (has t d ≡ false → table_missing v t d ≡ (true, d))
  unfolding table_missing any_row row_is
  table_missing-has t d = (
    λ e.
        rw (listed t d, e, str_eq_refl t, table_missing, any_row)
          (ap (λ (p : Answer × v.Db). (false, p.1)) (listed t d)),
    λ e. rw (listed t d, e, table_missing) (ap (λ (p : Answer × v.Db). (true, p.1)) (listed t d)),
  )

  insert_rows-has :
      (t u : Bytes) (rs : List Row) (d : v.Db) → has u (Ldb.insert_rows v t rs d) ≡ has u d
  unfolding Ldb.insert_rows
  insert_rows-has t u [] d = refl
  insert_rows-has t u (r ∷ rs) d =
      insert_rows-has t u rs (v.exec (insert t r) d).1 ∙ insert_has t u r d

  insert_rows-others :
      (t u : Bytes) (rs : List Row) (d : v.Db)
      → str_eq u t ≡ false
      → rows u (Ldb.insert_rows v t rs d) ≡ rows u d
  unfolding Ldb.insert_rows
  insert_rows-others t u [] d ne = refl
  insert_rows-others t u (r ∷ rs) d ne =
      insert_rows-others t u rs (v.exec (insert t r) d).1 ne ∙ insert_others t u r d ne

  insert_rows-rows :
      (t : Bytes) (rs : List Row) (d : v.Db)
      → has t d ≡ true
      → are_new (rows t d) rs ≡ true
      → rows t (Ldb.insert_rows v t rs d) ≡ rows t d ++ rs
  unfolding Ldb.insert_rows are_new
  insert_rows-rows t [] d there new = rw append-nil refl
  insert_rows-rows t (r ∷ rs) d there new = elim (Bool-cases (has_key (key r) (rows t d))) [
    | inl old ↦ ground (arith, old, new)
    | inr fresh ↦
        let d' : v.Db = (v.exec (insert t r) d).1 in
        let one = inserted t r d there fresh in
        let more : are_new (rows t d') rs ≡ true = rw one (ground (arith, fresh, new)) in
        let rest = insert_rows-rows t rs d' (insert_has t t r d ∙ there) more in
        rest ∙ rw (one, append_assoc (rows t d) (r ∷ []) rs) refl
  ]

  -- One table.
  create_table-has :
      (t c : Bytes) (rs : List Row) (d : v.Db) → has t (Ldb.create_table v t c rs d) ≡ true
  unfolding Ldb.create_table
  create_table-has t c rs d = elim (Bool-cases (has t d)) [
    | inl there ↦ rw ((table_missing-has t d).0 there, Ldb.create_table) there
    | inr absent ↦
        rw ((table_missing-has t d).1 absent, Ldb.create_table)
          (insert_rows-has t t rs (v.exec (create t c) d).1 ∙ (created t c d absent).0)
  ]

  create_table-there :
      (t c : Bytes) (rs : List Row) (d : v.Db) → has t d ≡ true → Ldb.create_table v t c rs d ≡ d
  unfolding Ldb.create_table
  create_table-there t c rs d there = rw ((table_missing-has t d).0 there, Ldb.create_table) refl

  create_table-rows :
      (t c : Bytes) (rs : List Row) (d : v.Db)
      → has t d ≡ false
      → are_new [] rs ≡ true
      → rows t (Ldb.create_table v t c rs d) ≡ rs
  unfolding Ldb.create_table
  create_table-rows t c rs d absent new =
      let d' : v.Db = (v.exec (create t c) d).1 in
      let (there, blank) = created t c d absent in
      let filled = insert_rows-rows t rs d' there (rw blank new) in
      rw ((table_missing-has t d).1 absent, Ldb.create_table) (filled ∙ rw blank refl)

  create_table-others :
      (t c u : Bytes) (rs : List Row) (d : v.Db)
      → str_eq u t ≡ false
      → (has u (Ldb.create_table v t c rs d) ≡ has u d)
        × (rows u (Ldb.create_table v t c rs d) ≡ rows u d)
  unfolding Ldb.create_table
  create_table-others t c u rs d ne = elim (Bool-cases (has t d)) [
    | inl there ↦ rw ((table_missing-has t d).0 there, Ldb.create_table) (refl, refl)
    | inr absent ↦
        let d' : v.Db = (v.exec (create t c) d).1 in
        let (has_u, rows_u) = create_others t c u d ne in
        rw ((table_missing-has t d).1 absent, Ldb.create_table)
          (insert_rows-has t u rs d' ∙ has_u, insert_rows-others t u rs d' ne ∙ rows_u)
  ]

  create_table-keeps :
      (t c u : Bytes) (rs : List Row) (d : v.Db)
      → has u d ≡ true
      → has u (Ldb.create_table v t c rs d) ≡ true
  create_table-keeps t c u rs d there = elim (Bool-cases (str_eq u t)) [
    | inl same ↦ rw ((str_eq_iff u t).0 same) (create_table-has t c rs d)
    | inr ne ↦ (create_table-others t c u rs d ne).0 ∙ there
  ]

  create_specs-keeps :
      (ps : List Spec) (u : Bytes) (d : v.Db) → has u d ≡ true → has u (create_specs v ps d) ≡ true
  unfolding create_specs
  create_specs-keeps [] u d there = there
  create_specs-keeps (p ∷ ps) u d there =
      create_specs-keeps ps u _ (create_table-keeps p.table p.content u p.first d there)

  create_specs-others :
      (ps : List Spec) (u : Bytes) (d : v.Db)
      → All (λ p. str_eq u p.table ≡ false) ps
      → (has u (create_specs v ps d) ≡ has u d) × (rows u (create_specs v ps d) ≡ rows u d)
  unfolding create_specs
  create_specs-others [] u d ne = (refl, refl)
  create_specs-others (p ∷ ps) u d (ne, nes) =
      let (has_p, rows_p) = create_table-others p.table p.content u p.first d ne in
      let (has_ps, rows_ps) = create_specs-others ps u _ nes in (has_ps ∙ has_p, rows_ps ∙ rows_p)

  create_specs-has :
      (ps : List Spec) (d : v.Db) → All (λ p. has p.table (create_specs v ps d) ≡ true) ps
  unfolding create_specs
  create_specs-has [] d = tt
  create_specs-has (p ∷ ps) d =
      let made = create_table-has p.table p.content p.first d in
      (create_specs-keeps ps p.table _ made, create_specs-has ps _)

  create_specs-there :
      (ps : List Spec) (d : v.Db) → All (λ p. has p.table d ≡ true) ps → create_specs v ps d ≡ d
  unfolding create_specs
  create_specs-there [] d there = refl
  create_specs-there (p ∷ ps) d (there, more) =
      rw (create_table-there p.table p.content p.first d there) (create_specs-there ps d more)

  -- After the creation of the tables each of the ten exists, whichever were there before, and
  -- creating them again changes nothing.
  pub create_tables-twice :
      (d : v.Db)
      → All (λ p. has p.table (Ldb.create_tables v d) ≡ true) specs
        × (Ldb.create_tables v (Ldb.create_tables v d) ≡ Ldb.create_tables v d)
  create_tables-twice d =
      let there = create_specs-has specs d in
      rw (create_tables-specs v d)
        (there, create_tables-specs v _ ∙ create_specs-there specs (create_specs v specs d) there)

  -- Where the table of settings is missing the creation of the tables makes it with the 21 settings
  -- and their first values, in their order, and no other row.
  pub create_tables-settings :
      (d : v.Db)
      → has Ldb.settings_table d ≡ false
      → rows Ldb.settings_table (Ldb.create_tables v d) ≡ Ldb.settings_rows
  unfolding create_specs are_new has_key str_eq
  create_tables-settings d absent =
      let d₁ = create_specs v before_settings d in
      let (has_kept, _) =
        create_specs-others before_settings Ldb.settings_table d
          (refl, (refl, (refl, (refl, (refl, (refl, (refl, (refl, tt)))))))) in
      let filled =
        create_table-rows Ldb.settings_table Ldb.settings_content Ldb.settings_rows d₁
          (has_kept ∙ absent) refl in
      ap (rows Ldb.settings_table) (create_tables-specs v d)
      ∙ (create_table-others Ldb.events_table Ldb.events_content Ldb.settings_table []
          (Ldb.create_table v Ldb.settings_table Ldb.settings_content Ldb.settings_rows d₁) refl).1
      ∙ filled
