-- ===== src/Device/Container/Saving/Updated.antt =====
-- `LDCsaveUpdatedDevice` of devicecontainer.c.
use lielas.Base.{
  ℕ, suc, Bool, true, false, Option, none, some, List, [], ◌∷◌, ◌++◌, Bytes, ltb, codes,
  if◌then◌else◌, length, get_elem?, Run, done, fault, ◌>>=◌,
}
use lielas.Sql.{
  Value, text, number, name, insert, select, update, tuples, command_ok, failed, missing,
  is_missing, Server,
}
use lielas.Ldb.{devices_table, moduls_table, channels_table}
use lielas.Device.Slots.{Ptr, Slots}
use lielas.Device.Container.Loading.{Channel, LoadedModul, Loads, semicolon}
use lielas.Device.Container.Saving.{
  Library, Change, quoted, unquoted, SavedChannel, SavedModul, SavedDevice, LoadedDevice,
  client_size, cell, new_id, save_changes, save_new_device, load_device_by_id,
}

-- An address that stands in a slot, none for a null pointer.
abbrev pub slot_at {ℓ} : {A : Type ℓ} → (Ptr → Option A) → Slots → ℕ → Run (Option A)
slot_at heap s i = elim (get_elem? s.slot i) [
  | none ↦ fault
  | some none ↦ done none
  | some (some p) ↦ elim (heap p) [ none ↦ fault | some a ↦ done (some a) ]
]

-- The ids of a column with one more behind them.
unfoldable pub extended : Bytes → (id : Bytes) → Bytes
extended [] id = id
extended (b ∷ bs) id = (b ∷ bs) ++ semicolon ∷ id

module _ {Real : Type 0} (c : Library Real) (v : Server) where
  abbrev Db : Type 0
  Db = v.Db

  -- The id is written behind the others in the column of the parent. Without a row `strcpy` reads a
  -- null pointer.
  unfoldable pub append_id : (parent column pid : Bytes) → (id : Bytes) → Db → Run (Bool × Db)
  append_id t col pid id d =
      let (a, d₁) = v.exec (select (col ∷ []) t pid) d in
      elim a [
        | tuples cs rows ↦ elim rows [
          | [] ↦ fault
          | r ∷ rs ↦
              let (b, d₂) = v.exec (update t col (text (extended (cell 0 r) id)) pid) d₁ in
              if ltb (length (cell 0 r)) client_size then done (is_missing b, d₂) else fault
        ]
        | command_ok ↦ fault
        | failed ↦ fault
        | missing ↦ done (true, d₁)
      ]

  -- A new row gets a new id, which the parent lists.
  unfoldable pub save_member :
      (table : Bytes)
      → (List (Bytes × Value))
      → (parent column pid : Bytes) → Db
      → Run (Bool × ℕ × Db)
  save_member t fields parent col pid d =
      let (id, d₁) = new_id c v t d in
      let (a, d₂) = v.exec (insert t ((codes "id", number (c.show id)) ∷ fields)) d₁ in
      elim (is_missing a) [
        | true ↦ done (true, id, d₂)
        | false ↦ append_id parent col pid (c.show id) d₂ >>= λ (bad, d₃). done (bad, id, d₃)
      ]

  abbrev pub channel_fields : SavedChannel Real → List (Bytes × Value)
  channel_fields ch =
      (codes "address", text ch.address)
      ∷ (codes "type", text ch.type_text)
      ∷ (codes "unit", text ch.unit)
      ∷ (codes "class", text ch.class)
      ∷ (codes "exponent", text (c.show_real ch.exponent))
      ∷ []

  abbrev pub modul_fields : SavedModul Real → List (Bytes × Value)
  modul_fields m =
      (codes "address", text m.address)
      ∷ (codes "mint", text m.mint)
      ∷ (codes "pint", text m.pint)
      ∷ (codes "aint", text m.aint)
      ∷ []

  -- A channel that is saved already; no `class` was loaded.
  abbrev pub channel_changes : SavedChannel Real → Channel Real → List Change
  channel_changes ch old =
      unquoted (codes "address") ch.address old.address
      ∷ unquoted (codes "type") ch.type_text old.type_text
      ∷ unquoted (codes "unit") ch.unit old.unit
      ∷ unquoted (codes "class") ch.class []
      ∷ record {
        column = codes "exponent";
        value = name (c.show_real ch.exponent);
        same = c.equal ch.exponent old.exponent;
      }
      ∷ []

  -- One channel; the first component is true where -1 is returned. The source's INSERT has
  -- `channels` without the schema that its UPDATE has: both are taken for one table here, the one
  -- the server's search path leads to.
  unfoldable pub save_channel :
      (mid : ℕ)
      → Option (Channel Real)
      → SavedChannel Real
      → Db
      → Run (Bool × SavedChannel Real × Db)
  save_channel mid none ch d =
      save_member channels_table (channel_fields ch) moduls_table (codes "channels") (c.show mid) d
      >>= λ (bad, id, d'). done (bad, record ch { id = id }, d')
  save_channel mid (some old) ch d =
      let (bad, d') = save_changes c v channels_table (c.show ch.id) (channel_changes ch old) d in
      done (bad, ch, d')

  -- The channel at index `j` of the old module, if there is that module.
  abbrev pub old_channel : Loads Real → Option LoadedModul → ℕ → Run (Option (Channel Real))
  old_channel s none j = done none
  old_channel s (some m) j = slot_at s.channels m.channels j

  -- The channels from index `j` on.
  unfoldable pub save_channels :
      Loads Real
      → (mid : ℕ) → Option LoadedModul
      → (j : ℕ) → List (SavedChannel Real)
      → Db
      → Run (Bool × List (SavedChannel Real) × Db)
  save_channels s mid old j [] d = done (false, [], d)
  save_channels s mid old j (ch ∷ chs) d =
      let rest = save_channels s mid old (suc j) chs in
      old_channel s old j >>= λ o. save_channel mid o ch d >>= λ (bad, ch', d'). elim bad [
        | true ↦ done (true, ch' ∷ chs, d')
        | false ↦ rest d' >>= λ (bad', chs', d''). done (bad', ch' ∷ chs', d'')
      ]

  -- The old `pint` and `aint` are whatever the memory holds at the address of the old module.
  abbrev pub modul_changes : SavedModul Real → LoadedModul → (pint aint : Bytes) → List Change
  modul_changes m old pint aint =
      unquoted (codes "address") m.address old.address
      ∷ unquoted (codes "mint") m.mint old.mint
      ∷ unquoted (codes "pint") m.pint pint
      ∷ unquoted (codes "aint") m.aint aint
      ∷ []

  -- The row of a module, new or old.
  unfoldable pub save_modul_row :
      (did : ℕ)
      → Option (Ptr × LoadedModul)
      → SavedModul Real
      → Db
      → Run (Bool × SavedModul Real × Db)
  save_modul_row did none m d =
      save_member moduls_table (modul_fields m) devices_table (codes "moduls") (c.show did) d
      >>= λ (bad, id, d'). done (bad, record m { id = id }, d')
  save_modul_row did (some (p, old)) m d =
      let changes = modul_changes m old (c.left_pint p) (c.left_aint p) in
      let (bad, d') = save_changes c v moduls_table (c.show m.id) changes d in done (bad, m, d')

  -- The module at index `i` of the loaded device.
  abbrev pub old_modul : Loads Real → Slots → ℕ → Run (Option (Ptr × LoadedModul))
  old_modul s moduls i =
      slot_at (λ p. elim (s.moduls p) [ none ↦ none | some m ↦ some (p, m) ]) moduls i

  unfoldable pub save_modul :
      Loads Real
      → (did : ℕ) → Option (Ptr × LoadedModul)
      → SavedModul Real
      → Db
      → Run (Bool × SavedModul Real × Db)
  save_modul s did old m d = save_modul_row did old m d >>= λ (bad, m', d₁). elim bad [
    | true ↦ done (true, m', d₁)
    | false ↦
        save_channels s m'.id (elim old [ none ↦ none | some (p, o) ↦ some o ]) 1 m'.channels d₁
        >>= λ (bad', chs, d₂). done (bad', record m' { channels = chs }, d₂)
  ]

  -- The modules from index `i` on.
  unfoldable pub save_moduls :
      Loads Real
      → (did : ℕ) → Slots
      → (i : ℕ) → List (SavedModul Real)
      → Db
      → Run (Bool × List (SavedModul Real) × Db)
  save_moduls s did olds i [] d = done (false, [], d)
  save_moduls s did olds i (m ∷ ms) d =
      let rest = save_moduls s did olds (suc i) ms in
      old_modul s olds i >>= λ o. save_modul s did o m d >>= λ (bad, m', d'). elim bad [
        | true ↦ done (true, m' ∷ ms, d')
        | false ↦ rest d' >>= λ (bad', ms', d''). done (bad', m' ∷ ms', d'')
      ]

  -- Only `mac` is written in single quotes.
  abbrev pub device_changes : SavedDevice Real → LoadedDevice → List Change
  device_changes e old =
      unquoted (codes "address") e.address old.address
      ∷ quoted (codes "mac") e.mac old.mac
      ∷ unquoted (codes "mint") e.mint old.mint
      ∷ unquoted (codes "pint") e.pint old.pint
      ∷ unquoted (codes "aint") e.aint old.aint
      ∷ []

  -- Behind the texts of the device.
  unfoldable pub save_parts :
      SavedDevice Real → LoadedDevice → Loads Real → Bool × Db → Run (Bool × SavedDevice Real × Db)
  save_parts e old s (true, d) = done (true, e, d)
  save_parts e old s (false, d) = save_moduls s e.id old.moduls 1 e.moduls d >>= λ (bad, ms, d').
      done (bad, record e { moduls = ms }, d')

  -- Behind the device that was loaded.
  unfoldable pub save_loaded :
      SavedDevice Real → Option LoadedDevice → Db → Loads Real → Run (Bool × SavedDevice Real × Db)
  save_loaded e none d s = done (true, e, d)
  save_loaded e (some old) d s =
      save_parts e old s (save_changes c v devices_table (c.show e.id) (device_changes e old) d)

  -- A device without a row gets one.
  unfoldable pub ensure_saved : Option LoadedDevice → SavedDevice Real → Db → SavedDevice Real × Db
  ensure_saved none e d = save_new_device c v e d
  ensure_saved (some old) e d = (e, d)

  -- The device is loaded twice, the first time to see whether it has a row. With what was loaded.
  unfoldable pub load_and_save :
      SavedDevice Real → Db → Loads Real → Run (Bool × SavedDevice Real × Db × Loads Real)
  load_and_save e d s = load_device_by_id c v e.id d s >>= λ (first, s₁).
      let (e₁, d₁) = ensure_saved first e d in
      load_device_by_id c v e₁.id d₁ s₁ >>= λ (old, s₂).
      save_loaded e₁ old d₁ s₂ >>= λ (bad, e₂, d₂). done (bad, e₂, d₂, s₂)

  unfoldable pub save_updated_device :
      SavedDevice Real → Db → Loads Real → Run (Bool × SavedDevice Real × Db)
  save_updated_device e d s = load_and_save e d s >>= λ (bad, e', d', s'). done (bad, e', d')
