-- ===== src/Device/Container/Saving/NewDevice.antt =====
-- A new device is saved with its modules and their channels.
use lielas.Base.{
  ℕ, zero, suc, ◌+◌, ◌<◌, ◌≡◌, ◌∙◌, refl, false, none, some, List, [], ◌∷◌, All, Bytes, arith,
  codes, str_eq, str_eq_refl, length, get_elem?, done,
}
use lielas.Sql.{Value, text, number, Server}
use lielas.Ldb.{devices_table, moduls_table, channels_table}
use lielas.Device.Slots.{Ptr}
use lielas.Device.Deletion.{created}
use lielas.Device.Container.Loading.{Loads, text_size, load_ids, load_moduls}
use lielas.Device.Container.Saving.{
  Library, SavedDevice, LoadedDevice, device_columns, device_fits, load_device_row,
  load_device_by_id, save_changes, save_new_device,
}
use lielas.Device.Container.Saving.Updated.{
  old_modul, device_changes, ensure_saved, save_parts, save_loaded, load_and_save,
  save_updated_device,
}
use lielas.Device.Container.Saving.Rows.{
  Row, row_of, AreQuotable, id_limit, IsLibrary, HasRows, new_id-last,
}
use lielas.Device.Container.Saving.New.{listed}
use lielas.Device.Container.Saving.NewModuls.{
  moduls_column, number_moduls, channel_count, IsSavable, AreStoredModuls, save_moduls-new,
}

-- The texts of a device fit the members that they are loaded into, and have no quotes.
abbrev pub HasTexts : {Real : Type 0} → SavedDevice Real → Type 0
HasTexts e =
    (length e.address < text_size)
    × (length e.mac < text_size)
    × (length e.mint < text_size)
    × (length e.pint < text_size)
    × (length e.aint < text_size)

abbrev pub HasRow : {Real : Type 0} → SavedDevice Real → Row → Type 0
HasRow e f =
    (f (codes "address") ≡ e.address)
    × (f (codes "mac") ≡ e.mac)
    × (f (codes "mint") ≡ e.mint)
    × (f (codes "pint") ≡ e.pint)
    × (f (codes "aint") ≡ e.aint)
    × (f moduls_column ≡ [])

module _ {Real : Type 0} (c : Library Real) (v : Server) (lib : IsLibrary c) (h : HasRows c v) where
  open h use {row, last, selected}

  abbrev pub blank : SavedDevice Real → Ptr → LoadedDevice
  blank e p = record {
    address = e.address;
    mac = e.mac;
    mint = e.mint;
    pint = e.pint;
    aint = e.aint;
    moduls = created (c.left p);
  }

  load_device_by_id-new :
      (e : SavedDevice Real) (f : Row) (p : Ptr) (d : v.Db) (s : Loads Real)
      → HasTexts e
      → HasRow e f
      → row devices_table (c.show e.id) d ≡ some f
      → c.malloc s.calls ≡ some p
      → let s' = record s { calls = suc s.calls; members = created (c.left p) } in
        load_device_by_id c v e.id d s ≡ done (some (blank e p), s')
  unfolding load_device_by_id load_device_row device_fits load_moduls load_ids
  load_device_by_id-new e f p d s (t₁, t₂, t₃, t₄, t₅) (r₁, r₂, r₃, r₄, r₅, r₆) there made =
      ground (
        arith,
        made,
        selected device_columns devices_table (c.show e.id) d,
        there,
        r₁,
        r₂,
        r₃,
        r₄,
        r₅,
        r₆,
        t₁,
        t₂,
        t₃,
        t₄,
        t₅,
      )

  save_changes-same :
      (e : SavedDevice Real) (p : Ptr) (id : Bytes) (d : v.Db)
      → save_changes c v devices_table id (device_changes c v e (blank e p)) d ≡ (false, d)
  unfolding save_changes
  save_changes-same e p id d =
      rw
        (
          str_eq_refl e.address,
          str_eq_refl e.mac,
          str_eq_refl e.mint,
          str_eq_refl e.pint,
          str_eq_refl e.aint,
          save_changes,
        )
        refl

  old_modul-null :
      (p : Ptr) (s : Loads Real) (j : ℕ)
      → ((i : ℕ) → i < 19 → get_elem? (c.left p) i ≡ some none)
      → j < 20
      → old_modul c v s (created (c.left p)) j ≡ done none
  unfolding created
  old_modul-null p s zero nulls lt = refl
  old_modul-null p s (suc j) nulls lt = rw (nulls j (omega (arith, lt))) refl

  save_updated_device-new :
      (e : SavedDevice Real) (m k : ℕ) (f : Row) (p q : Ptr) (d : v.Db) (s : Loads Real)
      → last moduls_table d ≡ m
      → last channels_table d ≡ k
      → HasTexts e
      → HasRow e f
      → row devices_table (c.show e.id) d ≡ some f
      → c.malloc s.calls ≡ some p
      → c.malloc (suc s.calls) ≡ some q
      → ((i : ℕ) → i < 19 → get_elem? (c.left q) i ≡ some none)
      → m + length e.moduls < id_limit
      → k + channel_count c v e.moduls < id_limit
      → All (IsSavable c v) e.moduls
      → length e.moduls < 20
      → let ms = number_moduls c v m k e.moduls in
        (f' : Row) × (d' : v.Db) × (save_updated_device c v e d s
          ≡ done (false, record e { moduls = ms }, d'))
        × (row devices_table (c.show e.id) d' ≡ some f')
        × (f' moduls_column ≡ listed c v [] m e.moduls)
        × ((x : Bytes) → str_eq x moduls_column ≡ false → f' x ≡ f x)
        × AreStoredModuls c v lib h m k e.moduls d'
  unfolding save_updated_device load_and_save ensure_saved save_parts save_loaded
  save_updated_device-new e m k f p q d s at_m at_k texts columns there made made' nulls small
        small_k plain few =
      let (r₁, r₂, r₃, r₄, r₅, empty) = columns in
      let s₁ : Loads Real = record s { calls = suc s.calls; members = created (c.left p) } in
      let s₂ : Loads Real = record s₁ { calls = suc s₁.calls; members = created (c.left q) } in
      let first = load_device_by_id-new e f p d s texts columns there made in
      let second = load_device_by_id-new e f q d s₁ texts columns there made' in
      let same = save_changes-same e q (c.show e.id) d in
      let (f', d', saved, there', column, others, stored, keeps) =
        save_moduls-new c v lib h s₂ e.id m k 1 (created (c.left q)) e.moduls f d at_m at_k small
          small_k plain (λ j lt. old_modul-null q s₂ j nulls (omega (arith, lt, few))) there
          (rw empty (omega (arith, few))) (rw empty tt) in
      let loaded : save_loaded c v e (some (blank e q)) d s₂
          ≡ done (false, record e { moduls = number_moduls c v m k e.moduls }, d') =
        rw (same, save_loaded) (rw (saved, save_parts) refl) in
      (
        f',
        d',
        rw (first, load_and_save, save_updated_device) (rw (second, loaded, ensure_saved) refl),
        there',
        column ∙ rw empty refl,
        others,
        stored,
      )

  -- The row of a new device.
  abbrev pub device_fields : SavedDevice Real → List (Bytes × Value)
  device_fields e =
      (codes "address", text e.address)
      ∷ (codes "mac", text e.mac)
      ∷ (codes "registered", text (codes "true"))
      ∷ (codes "name", text e.name)
      ∷ (codes "mint", text e.mint)
      ∷ (codes "pint", text e.pint)
      ∷ (codes "aint", text e.aint)
      ∷ []

  abbrev pub device_values : ℕ → SavedDevice Real → List (Bytes × Value)
  device_values n e = (codes "id", number (c.show n)) ∷ device_fields e

  -- A new device is saved with its modules and channels: `LDCsaveNewDevice` gives it the id behind
  -- the last one, and `LDCsaveUpdatedDevice` then returns 0; modules and channels get the ids
  -- behind the last ones of their tables, in their order, the device's row keeps its values and
  -- lists the ids of the modules, and each module's row has its values and lists the ids of its
  -- channels, which have their rows; the texts fit and have no quotes, the device has less than 20
  -- modules of less than 20 channels each, ids stay below 10^9, the first two allocations succeed
  -- and the second one finds null pointers.
  pub save_new_device-updated :
      (e : SavedDevice Real) (p q : Ptr) (d : v.Db) (s : Loads Real)
      → let n = last devices_table d + 1 in
        HasTexts e
        → n < id_limit
        → AreQuotable (device_values n e)
        → c.malloc s.calls ≡ some p
        → c.malloc (suc s.calls) ≡ some q
        → ((i : ℕ) → i < 19 → get_elem? (c.left q) i ≡ some none)
        → last moduls_table d + length e.moduls < id_limit
        → last channels_table d + channel_count c v e.moduls < id_limit
        → All (IsSavable c v) e.moduls
        → length e.moduls < 20
        → let m = last moduls_table d in
          let k = last channels_table d in
          let e₁ = record e { id = n } in
          let e₂ = record e₁ { moduls = number_moduls c v m k e.moduls } in
          (f : Row) × (d₁ : v.Db) × (d₂ : v.Db) × (save_new_device c v e d ≡ (e₁, d₁))
          × (save_updated_device c v e₁ d₁ s ≡ done (false, e₂, d₂))
          × (row devices_table (c.show n) d₂ ≡ some f)
          × (f moduls_column ≡ listed c v [] m e.moduls)
          × ((x : Bytes) → str_eq x moduls_column ≡ false → f x ≡ row_of (device_values n e) x)
          × AreStoredModuls c v lib h m k e.moduls d₂
  unfolding save_new_device row_of str_eq
  save_new_device-updated e p q d s texts small plain made made' nulls small_m small_k savable few =
      let n = last devices_table d + 1 in
      let fresh = new_id-last c v lib h devices_table d (omega (arith, small)) in
      let (d₁, wrote, there, _, _, lasts) =
        h.inserted devices_table n (device_fields e) d (omega arith) small plain.1 in
      let e₁ : SavedDevice Real = record e { id = n } in
      let same_m = lasts moduls_table refl in
      let same_k = lasts channels_table refl in
      let (f, d₂, updated, there₂, column, others, stored) =
        save_updated_device-new e₁ (last moduls_table d) (last channels_table d)
          (row_of (device_values n e)) p q d₁ s same_m same_k texts
          (refl, refl, refl, refl, refl, refl) there made made' nulls small_m small_k savable few in
      (f, d₁, d₂, ground (arith, fresh, wrote), updated, there₂, column, others, stored)
