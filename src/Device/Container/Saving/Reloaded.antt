-- ===== src/Device/Container/Saving/Reloaded.antt =====
-- A device is loaded as it was saved.
use lielas.Base.{
  ℕ, suc, ◌+◌, ◌<◌, ◌≤◌, ◌≡◌, ◌∙◌, refl, true, false, none, some, List, [], ◌∷◌, ◌++◌, append_assoc,
  append-nil, All, Bytes, arith, length, length-append, get_elem?, codes, str_eq, done,
}
use lielas.Sql.{Server}
use lielas.Ldb.{devices_table, moduls_table, channels_table}
use lielas.Device.Slots.{Ptr, Slots}
use lielas.Device.Deletion.{created}
use lielas.Device.Deletion.Leak.{Holds, created-Holds}
use lielas.Device.Container.Loading.{Loads, load_modul, load_moduls}
use lielas.Device.Container.Loading.Separated.{load_all}
use lielas.Device.Container.Saving.{
  Library, SavedModul, SavedDevice, LoadedDevice, tables, device_columns, device_fits,
  load_device_row, load_device_by_id, save_new_device,
}
use lielas.Device.Container.Saving.Updated.{save_updated_device}
use lielas.Device.Container.Saving.Rows.{
  Row, row_of, values, AreQuotable, id_limit, IsLibrary, HasRows,
}
use lielas.Device.Container.Saving.New.{listed}
use lielas.Device.Container.Saving.NewModuls.{
  moduls_column, number_moduls, channel_count, IsSavable, AreStoredModuls,
}
use lielas.Device.Container.Saving.NewDevice.{HasTexts, device_values, save_new_device-updated}
use lielas.Device.Container.Saving.Ids.{ids_from, load_ids-listed}
use lielas.Device.Container.Saving.Reload.{Places, AreLoaded-kept}
use lielas.Device.Container.Saving.ReloadModuls.{
  ModulFits, IsLoaded, length-listed, load_modul-stored,
}

module _ {Real : Type 0} (c : Library Real) (v : Server) (lib : IsLibrary c) (h : HasRows c v)
    (at : Places c) where
  open h use {row, last, selected}
  open at use {place, given, left_size, new}

  -- The addresses of the modules that are loaded from the call `i` on, each before its channels.
  unfoldable pub modul_places : ℕ → List (SavedModul Real) → List Ptr
  modul_places i [] = []
  modul_places i (m ∷ ms) = place i ∷ modul_places (suc i + length m.channels) ms

  -- They are there as they were saved, with the ids behind `n` and `k`.
  unfoldable pub AreLoadedModuls : (i n k : ℕ) → List (SavedModul Real) → Loads Real → Type 0
  AreLoadedModuls i n k [] s = Unit
  AreLoadedModuls i n k (m ∷ ms) s =
      IsLoaded c v lib h at i (n + 1) k m s
      × AreLoadedModuls (suc i + length m.channels) (n + 1) (k + length m.channels) ms s

  IsLoaded-kept :
      (i n k : ℕ) (m : SavedModul Real) (s s' : Loads Real)
      → ((q : ℕ) → q < suc i + length m.channels → s'.channels (place q) ≡ s.channels (place q))
      → ((q : ℕ) → q < suc i + length m.channels → s'.moduls (place q) ≡ s.moduls (place q))
      → IsLoaded c v lib h at i n k m s
      → IsLoaded c v lib h at i n k m s'
  unfolding IsLoaded
  IsLoaded-kept i n k m s s' channels moduls ((sl, there, holds), loaded) = (
    (sl, moduls i (omega arith) ∙ there, holds),
    AreLoaded-kept c v lib h at (suc i) k m.channels s s' channels loaded,
  )

  load_all-moduls :
      (n k i : ℕ) (ms : List (SavedModul Real)) (ps : List Ptr) (d : v.Db) (s : Loads Real)
      → s.calls ≡ i
      → n + length ms < id_limit
      → k + channel_count c v ms < id_limit
      → AreStoredModuls c v lib h n k ms d
      → All ModulFits ms
      → Holds ps s.members
      → length ps + length ms ≤ 18
      → (s' : Loads Real) × (load_all (load_modul (tables c v d)) (ids_from c v lib n ms) s
          ≡ done s')
        × Holds (ps ++ modul_places i ms) s'.members
        × AreLoadedModuls i n k ms s'
        × ((q : ℕ) → q < i → s'.channels (place q) ≡ s.channels (place q))
        × ((q : ℕ) → q < i → s'.moduls (place q) ≡ s.moduls (place q))
  unfolding load_all ids_from modul_places AreLoadedModuls AreStoredModuls channel_count
  load_all-moduls n k i [] ps d s at_i small small_k stored fits holds few =
      (s, refl, rw append-nil holds, tt, λ q lt. refl, λ q lt. refl)
  load_all-moduls n k i (m ∷ ms) ps d s at_i small small_k (stored, more_stored) (fits, more_fit)
        holds few =
      let (s₁, one, calls₁, holds₁, here, channels₁, moduls₁) =
        load_modul-stored c v lib h at (n + 1) k i m ps d s at_i (omega (arith, small))
          (omega (arith, small_k)) stored fits holds (omega (arith, few)) in
      let (s₂, more, holds₂, loaded, channels₂, moduls₂) =
        load_all-moduls (n + 1) (k + length m.channels) (suc i + length m.channels) ms
          (ps ++ place i ∷ []) d s₁ calls₁ (omega (arith, small)) (omega (arith, small_k))
          more_stored more_fit holds₁ (omega (arith, few, length-append ps (place i ∷ []))) in
      (
        s₂,
        rw (one, more, load_all) refl,
        rw (← append_assoc ps (place i ∷ []) (modul_places (suc i + length m.channels) ms)) holds₂,
        (IsLoaded-kept i (n + 1) k m s₁ s₂ channels₂ moduls₂ here, loaded),
        λ q lt. channels₂ q (omega (arith, lt)) ∙ channels₁ q lt,
        λ q lt. moduls₂ q (omega (arith, lt)) ∙ moduls₁ q lt,
      )

  -- What is loaded of a device, with its modules in `sl`.
  abbrev pub loaded_device : SavedDevice Real → Slots → LoadedDevice
  loaded_device e sl = record {
    address = e.address;
    mac = e.mac;
    mint = e.mint;
    pint = e.pint;
    aint = e.aint;
    moduls = sl;
  }

  load_device_by_id-stored :
      (id n k : ℕ) (e : SavedDevice Real) (f : Row) (d : v.Db) (s : Loads Real)
      → HasTexts e
      → row devices_table (c.show id) d ≡ some f
      → f moduls_column ≡ listed c v [] n e.moduls
      → ((x : Bytes)
          → str_eq x moduls_column ≡ false
          → f x ≡ row_of (device_values c v lib h id e) x)
      → AreStoredModuls c v lib h n k e.moduls d
      → n + length e.moduls < id_limit
      → k + channel_count c v e.moduls < id_limit
      → All ModulFits e.moduls
      → length e.moduls ≤ 18
      → (sl : Slots) × (s' : Loads Real) × (load_device_by_id c v id d s
          ≡ done (some (loaded_device e sl), s'))
        × Holds (modul_places (suc s.calls) e.moduls) sl
        × AreLoadedModuls (suc s.calls) n k e.moduls s'
  unfolding load_device_by_id load_device_row device_fits load_moduls row_of str_eq
  load_device_by_id-stored id n k e f d s (t₁, t₂, t₃, t₄, t₅) there column others stored small
        small_k fits few =
      let p = place s.calls in
      let s₁ : Loads Real = record s { calls = suc s.calls; members = created (c.left p) } in
      let (s', ran, holds, loaded, _, _) =
        load_all-moduls n k (suc s.calls) e.moduls [] d s₁ refl small small_k stored fits
          (created-Holds (c.left p) (left_size p)) (omega (arith, few)) in
      let whole : load_moduls (tables c v d) (f moduls_column) s₁ ≡ done s' =
        rw column (load_ids-listed c v lib (load_modul (tables c v d)) n e.moduls s₁ small ∙ ran) in
      let r = values f device_columns in
      let a₁ : f (codes "address") ≡ e.address = others (codes "address") refl in
      let a₂ : f (codes "mac") ≡ e.mac = others (codes "mac") refl in
      let a₃ : f (codes "mint") ≡ e.mint = others (codes "mint") refl in
      let a₄ : f (codes "pint") ≡ e.pint = others (codes "pint") refl in
      let a₅ : f (codes "aint") ≡ e.aint = others (codes "aint") refl in
      let short = length-listed c v lib h at [] n e.moduls small in
      let row_fits : device_fits c v r ≡ true =
        ground (arith, a₁, a₂, a₃, a₄, a₅, t₁, t₂, t₃, t₄, t₅, column, short, few) in
      let row_ran : load_device_row c v r p d (record s { calls = suc s.calls })
          ≡ done (loaded_device e s'.members, s') =
        rw (row_fits, whole, a₁, a₂, a₃, a₄, a₅, load_device_row) refl in
      let found = selected device_columns devices_table (c.show id) d in
      (
        s'.members,
        s',
        rw (given s.calls, found, there, row_ran, load_device_by_id) refl,
        holds,
        loaded,
      )

  -- A new device that `LDCsaveNewDevice` and then `LDCsaveUpdatedDevice` save is loaded by its id
  -- as it was saved: its texts, its modules at the addresses that `malloc` gives, in their order
  -- with their new ids and texts, and in each of them its channels, in their order with their new
  -- ids and texts and the exponent that is read from the printed one; the texts fit and have no
  -- quotes, there are 18 modules at most with 18 channels at most each, ids stay below 10^9,
  -- `malloc` gives a new address at each call, and null pointers where the saving loads the device
  -- for the second time.
  pub save_new_device-reloaded :
      (e : SavedDevice Real) (d : v.Db) (s : Loads Real)
      → let n = last devices_table d + 1 in
        HasTexts e
        → n < id_limit
        → AreQuotable (device_values c v lib h n e)
        → ((i : ℕ) → i < 19 → get_elem? (c.left (place (suc s.calls))) i ≡ some none)
        → last moduls_table d + length e.moduls < id_limit
        → last channels_table d + channel_count c v e.moduls < id_limit
        → All (IsSavable c v) e.moduls
        → All ModulFits e.moduls
        → length e.moduls ≤ 18
        → let m = last moduls_table d in
          let k = last channels_table d in
          let e₁ = record e { id = n } in
          let e₂ = record e₁ { moduls = number_moduls c v m k e.moduls } in
          (d₁ : v.Db) × (d₂ : v.Db) × (save_new_device c v e d ≡ (e₁, d₁))
          × (save_updated_device c v e₁ d₁ s ≡ done (false, e₂, d₂))
          × ((t : Loads Real)
              → (sl : Slots) × (t' : Loads Real) × (load_device_by_id c v n d₂ t
                  ≡ done (some (loaded_device e sl), t'))
                × Holds (modul_places (suc t.calls) e.moduls) sl
                × AreLoadedModuls (suc t.calls) m k e.moduls t')
  save_new_device-reloaded e d s texts small plain nulls small_m small_k savable fits few =
      let n = last devices_table d + 1 in
      let (f, d₁, d₂, saved, updated, there, column, others, stored) =
        save_new_device-updated c v lib h e (place s.calls) (place (suc s.calls)) d s texts small
          plain (given s.calls) (given (suc s.calls)) nulls small_m small_k savable
          (omega (arith, few)) in
      (
        d₁,
        d₂,
        saved,
        updated,
        λ t.
            load_device_by_id-stored n (last moduls_table d) (last channels_table d) e f d₂ t texts
              there column others stored small_m small_k fits few,
      )
