-- ===== src/Tests/Saving.antt =====
-- A new device with one module and two channels is saved.
use lielas.Base.{
  ℕ, ◌+◌, suc, All, ◌<◌, ◌≡◌, refl, Bool, true, false, none, some, List, [], ◌∷◌, All, Bytes, arith,
  codes, str_eq, ◌==◌, get_elem?, get_elem?-replicate, if◌then◌else◌, done,
}
use lielas.Device.Slots.{Slots}
use lielas.Sql.{Value}
use lielas.Ldb.{devices_table, channels_table}
use lielas.Device.Deletion.{created}
use lielas.Device.Container.Loading.{Loads}
use lielas.Device.Container.Saving.{
  SavedChannel, SavedModul, SavedDevice, save_new_device, load_device_by_id,
}
use lielas.Device.Container.Saving.Updated.{channel_fields, modul_fields, save_updated_device}
use lielas.Device.Container.Saving.Rows.{Row, row_of, literal, IsQuotable, AreQuotable}
use lielas.Device.Container.Saving.New.{listed}
use lielas.Device.Container.Saving.NewModuls.{
  moduls_column, number_moduls, channel_count, AreStoredModuls, IsSavable,
}
use lielas.Device.Container.Saving.NewDevice.{device_values, save_new_device-updated}
use lielas.Device.Container.Saving.Reload.{Places}
use lielas.Device.Container.Saving.Reloaded.{
  modul_places, AreLoadedModuls, loaded_device, save_new_device-reloaded,
}
use lielas.Device.Deletion.Leak.{Holds}
use lielas.Tests.Rows.{Tables, row_at, library, library-IsLibrary, server, server-HasRows, decimal}

abbrev channel : Bytes → SavedChannel Bytes
channel adr = record {
  id = 0;
  address = adr;
  type_text = codes "temperature";
  unit = codes "C";
  class = codes "I16";
  exponent = codes "2";
}

abbrev modul : SavedModul Bytes
modul = record {
  id = 0;
  address = codes "1";
  mint = codes "600";
  pint = codes "2";
  aint = codes "60";
  channels = channel (codes "1") ∷ channel (codes "2") ∷ [];
}

abbrev device : SavedDevice Bytes
device = record {
  id = 0;
  address = codes "aaaa::1";
  mac = codes "00:01";
  name = codes "node";
  mint = codes "600";
  pint = codes "2";
  aint = codes "60";
  moduls = modul ∷ [];
}

-- Three channels were saved before.
abbrev db : Tables
db = record { stored = λ t i. none; last = λ t. if str_eq t channels_table then 3 else 0 }

abbrev start : Loads Bytes
start = record { channels = λ p. none; moduls = λ p. none; calls = 0; members = created [] }

-- The test for quotes.
no_quote : Bytes → Bool
no_quote [] = true
no_quote (ch ∷ t) = if ch == 39 then false else no_quote t

no_quotes : List (Bytes × Value) → Bool
no_quotes [] = true
no_quotes (p ∷ ps) = if no_quote (literal p.1) then no_quotes ps else false

no_quote-IsQuotable : (t : Bytes) → no_quote t ≡ true → IsQuotable t
unfolding no_quote
no_quote-IsQuotable [] e = tt
no_quote-IsQuotable (ch ∷ t) e =
    ((λ same. ground (arith, e, same)), no_quote-IsQuotable t (ground (arith, e)))

no_quotes-AreQuotable : (ps : List (Bytes × Value)) → no_quotes ps ≡ true → AreQuotable ps
unfolding no_quotes
no_quotes-AreQuotable [] e = tt
no_quotes-AreQuotable (p ∷ ps) e = (
  no_quote-IsQuotable (literal p.1) (ground (arith, e)),
  no_quotes-AreQuotable ps (ground (arith, e)),
)

left_null : (i : ℕ) → i < 19 → get_elem? (library.left 501) i ≡ some none
left_null i lt = get_elem?-replicate 19 i none lt

modul-IsSavable : All (IsSavable library server) (modul ∷ [])
unfolding no_quote no_quotes
modul-IsSavable = (
  (
    no_quotes-AreQuotable (modul_fields library server modul) refl,
    (
      no_quotes-AreQuotable (channel_fields library server (channel (codes "1"))) refl,
      (no_quotes-AreQuotable (channel_fields library server (channel (codes "2"))) refl, tt),
    ),
    omega arith,
  ),
  tt,
)

abbrev moduls' : List (SavedModul Bytes)
moduls' = number_moduls library server 0 3 (modul ∷ [])

save_new_device-updated_example :
    (f : Row) × (d₁ : Tables) × (d₂ : Tables) × (save_new_device library server device db
      ≡ (record device { id = 1 }, d₁))
    × (save_updated_device library server (record device { id = 1 }) d₁ start
        ≡ done (false, record device { id = 1; moduls = moduls' }, d₂))
    × (row_at devices_table (library.show 1) d₂ ≡ some f)
    × (f moduls_column ≡ listed library server [] 0 (modul ∷ []))
    × ((x : Bytes)
        → str_eq x moduls_column ≡ false
        → f x ≡ row_of (device_values library server library-IsLibrary server-HasRows 1 device) x)
    × AreStoredModuls library server library-IsLibrary server-HasRows 0 3 (modul ∷ []) d₂
unfolding server-HasRows channel_count str_eq decimal no_quote no_quotes
save_new_device-updated_example =
    save_new_device-updated library server library-IsLibrary server-HasRows device 500 501 db start
      (omega arith, omega arith, omega arith, omega arith, omega arith) (omega arith)
      (no_quotes-AreQuotable
        (device_values library server library-IsLibrary server-HasRows 1 device) refl)
      refl refl left_null (omega arith) (omega arith) modul-IsSavable (omega arith)

abbrev places' : Places library
places' = record {
  place = λ i. 500 + i;
  given = λ i. refl;
  left_size = λ p. refl;
  new = λ i j lt. omega arith;
}

save_new_device-reloaded_example :
    (d₁ : Tables) × (d₂ : Tables) × (save_new_device library server device db
      ≡ (record device { id = 1 }, d₁))
    × (save_updated_device library server (record device { id = 1 }) d₁ start
        ≡ done (false, record device { id = 1; moduls = moduls' }, d₂))
    × ((t : Loads Bytes)
        → (sl : Slots) × (t' : Loads Bytes) × (load_device_by_id library server 1 d₂ t
            ≡ done (
              some
                  (loaded_device library server library-IsLibrary server-HasRows places' device sl),
              t',
            ))
          × Holds
              (modul_places library server library-IsLibrary server-HasRows places'
                (suc t.calls)
                (modul ∷ []))
              sl
          × AreLoadedModuls library server library-IsLibrary server-HasRows places'
              (suc t.calls)
              0
              3
              (modul ∷ [])
              t')
unfolding server-HasRows channel_count str_eq decimal no_quote no_quotes
save_new_device-reloaded_example =
    save_new_device-reloaded library server library-IsLibrary server-HasRows places' device db start
      (omega arith, omega arith, omega arith, omega arith, omega arith) (omega arith)
      (no_quotes-AreQuotable
        (device_values library server library-IsLibrary server-HasRows 1 device) refl)
      left_null (omega arith) (omega arith) modul-IsSavable
      (
        (
          omega arith,
          omega arith,
          ((omega arith, omega arith, omega arith), ((omega arith, omega arith, omega arith), tt)),
          omega arith,
        ),
        tt,
      )
      (omega arith)
