-- ===== src/Device/Container/Saving.antt =====
-- The saving of a device in devicecontainer.c: `getNewId`, `loadDeviceById`, `LDCsaveWKC`,
-- `LDCsaveNewDevice` and `LDCsaveUpdatedDevice`. The device that is saved is modelled by its members in
-- their order, the one that is loaded to compare it with by the loader. The log is left out.
pub mod Updated
pub mod Rows
pub mod New
pub mod NewModuls
pub mod NewDevice
pub mod Ids
pub mod Reload
pub mod ReloadModuls
pub mod Reloaded
use lielas.Base.{
  ℕ, zero, suc, ◌+◌, Bool, true, false, ◌&&◌, Option, none, some, List, [], ◌∷◌, ◌++◌, Bytes, ◌==◌,
  str_eq, ltb, codes, if◌then◌else◌, length, get_elem?, Run, done, fault, ◌>>=◌,
}
use lielas.Sql.{
  Value, text, number, name, Statement, last_id, select, insert, update, Answer, tuples, command_ok,
  failed, missing, is_missing, Server,
}
use lielas.Ldb.{devices_table, moduls_table, channels_table}
use lielas.Device.Slots.{Ptr, Slots}
use lielas.Device.Deletion.{created}
use lielas.Device.Container.Loading.{
  Channel, LoadedModul, ChannelRow, ModulRow, Tables, Loads, text_size, semicolon, load_moduls,
}

-- `CLIENT_BUFFER_LEN`
abbrev pub client_size : ℕ
client_size = 1000

-- `PQgetvalue` of the first row.
abbrev pub cell : ℕ → List Bytes → Bytes
cell i r = elim (get_elem? r i) [ none ↦ [] | some t ↦ t ]

-- The columns that are read of a channel, a module and a device.
abbrev pub channel_columns : List Bytes
channel_columns = codes "id" ∷ codes "address" ∷ codes "type" ∷ codes "unit" ∷ codes "exponent" ∷ []

abbrev pub modul_columns : List Bytes
modul_columns = codes "id" ∷ codes "address" ∷ codes "channels" ∷ codes "mint" ∷ []

abbrev pub device_columns : List Bytes
device_columns =
    codes "id"
    ∷ codes "address"
    ∷ codes "mac"
    ∷ codes "mint"
    ∷ codes "pint"
    ∷ codes "aint"
    ∷ codes "moduls"
    ∷ codes "registered"
    ∷ []

abbrev pub channel_row : List Bytes → ChannelRow
channel_row r = record {
  id = cell 0 r;
  address = cell 1 r;
  type_text = cell 2 r;
  unit = cell 3 r;
  exponent = cell 4 r;
}

abbrev pub modul_row : List Bytes → ModulRow
modul_row r = record { id = cell 0 r; address = cell 1 r; channels = cell 2 r; mint = cell 3 r }

abbrev pub rows_of {ℓ} : {A : Type ℓ} → (List Bytes → A) → List (List Bytes) → List A
rows_of f [] = []
rows_of f (r ∷ rs) = f r ∷ rows_of f rs

-- The rows, where the statement gives some.
abbrev pub answered {ℓ} : {A : Type ℓ} → (List Bytes → A) → Answer → Option (List A)
answered f (tuples cs rows) = some (rows_of f rows)
answered f _ = none

-- The members of the structs that are saved.
pub record SavedChannel (Real : Type 0) : Type 0 where
  pub id : ℕ
  pub address : Bytes
  pub type_text : Bytes
  pub unit : Bytes
  pub class : Bytes
  pub exponent : Real

pub record SavedModul (Real : Type 0) : Type 0 where
  pub id : ℕ
  pub address : Bytes
  pub mint : Bytes
  pub pint : Bytes
  pub aint : Bytes
  pub channels : List (SavedChannel Real)

pub record SavedDevice (Real : Type 0) : Type 0 where
  pub id : ℕ
  pub address : Bytes
  pub mac : Bytes
  pub name : Bytes
  pub mint : Bytes
  pub pint : Bytes
  pub aint : Bytes
  pub moduls : List (SavedModul Real)

-- What `loadDeviceById` returns.
pub record LoadedDevice : Type 0 where
  pub address : Bytes
  pub mac : Bytes
  pub mint : Bytes
  pub pint : Bytes
  pub aint : Bytes
  pub moduls : Slots

-- The C library, and what `malloc` gives and left in a module; `class`, `pint` and `aint` of a loaded
-- channel or module are not read from their tables, and the last two are not set at all.
pub record Library (Real : Type 0) : Type 0 where
  pub atoi : Bytes → ℕ
  pub strtod : Bytes → Real
  -- `%d` and `%.0f`
  pub show : ℕ → Bytes
  pub show_real : Real → Bytes
  pub equal : Real → Real → Bool
  pub malloc : ℕ → Option Ptr
  pub left : Ptr → List (Option Ptr)
  pub left_pint : Ptr → Bytes
  pub left_aint : Ptr → Bytes

-- A text that is written where it differs: its column, how it is quoted, and the new and the old text.
pub record Change : Type 0 where
  pub column : Bytes
  pub value : Value
  pub same : Bool

abbrev pub quoted : (column new old : Bytes) → Change
quoted c new old = record { column = c; value = text new; same = str_eq new old }

-- The new text in double quotes.
abbrev pub unquoted : (column new old : Bytes) → Change
unquoted c new old = record { column = c; value = name new; same = str_eq new old }

module _ {Real : Type 0} (c : Library Real) (v : Server) where
  abbrev pub Db : Type 0
  Db = v.Db

  -- A `SELECT` leaves the database as it is.
  abbrev pub tables : Db → Tables Real
  tables d = record {
    channel = λ id. answered channel_row (v.exec (select channel_columns channels_table id) d).0;
    modul = λ id. answered modul_row (v.exec (select modul_columns moduls_table id) d).0;
    atoi = c.atoi;
    strtod = c.strtod;
    malloc = c.malloc;
    left = c.left;
  }

  -- `getNewId`, which is 1 also where the statement fails; no id is 0.
  unfoldable pub new_id : (table : Bytes) → Db → ℕ × Db
  new_id t d =
      let (a, d') = v.exec (last_id t) d in
      elim a [
        | tuples cs rows ↦ elim rows [ [] ↦ (1, d') | r ∷ rs ↦ (c.atoi (cell 0 r) + 1, d') ]
        | command_ok ↦ (1, d')
        | failed ↦ (1, d')
        | missing ↦ (1, d')
      ]

  unfoldable pub device_fits : List Bytes → Bool
  device_fits r =
      ltb (length (cell 1 r)) text_size
      && ltb (length (cell 2 r)) text_size
      && ltb (length (cell 3 r)) text_size
      && ltb (length (cell 4 r)) text_size
      && ltb (length (cell 5 r)) text_size
      && ltb (length (cell 6 r)) client_size

  unfoldable pub load_device_row :
      List Bytes → Ptr → Db → Loads Real → Run (LoadedDevice × Loads Real)
  load_device_row r p d s =
      if device_fits r
      then (load_moduls (tables d) (cell 6 r) (record s { members = created (c.left p) }) >>= λ s'.
          done (
            record {
              address = cell 1 r;
              mac = cell 2 r;
              mint = cell 3 r;
              pint = cell 4 r;
              aint = cell 5 r;
              moduls = s'.members;
            },
            s',
          ))
      else fault

  -- `loadDeviceById`
  unfoldable pub load_device_by_id : ℕ → Db → Loads Real → Run (Option LoadedDevice × Loads Real)
  load_device_by_id id d s =
      let s₁ = record s { calls = suc s.calls } in
      elim (c.malloc s.calls) [
        | none ↦ done (none, s₁)
        | some p ↦ elim (v.exec (select device_columns devices_table (c.show id)) d).0 [
          | tuples cs rows ↦ elim rows [
            | [] ↦ done (none, s₁)
            | r ∷ rs ↦ load_device_row r p d s₁ >>= λ (e, s'). done (some e, s')
          ]
          | command_ok ↦ done (none, s₁)
          | failed ↦ done (none, s₁)
          | missing ↦ done (none, s₁)
        ]
      ]

  -- `LDCsaveWKC`; true where -1 is returned, here and below.
  unfoldable pub save_wkc : Bytes → (id : ℕ) → Db → Bool × Db
  save_wkc wkc id d =
      let (a, d') = v.exec (update devices_table (codes "wkc") (text wkc) (c.show id)) d in
      (is_missing a, d')

  -- `LDCsaveNewDevice`: the new id, whatever the insertion gives.
  unfoldable pub save_new_device : SavedDevice Real → Db → SavedDevice Real × Db
  save_new_device e d =
      let (id, d₁) = new_id devices_table d in
      let row =
        (codes "id", number (c.show id))
        ∷ (codes "address", text e.address)
        ∷ (codes "mac", text e.mac)
        ∷ (codes "registered", text (codes "true"))
        ∷ (codes "name", text e.name)
        ∷ (codes "mint", text e.mint)
        ∷ (codes "pint", text e.pint)
        ∷ (codes "aint", text e.aint)
        ∷ [] in
      (record e { id = id }, (v.exec (insert devices_table row) d₁).1)

  -- The texts that differ, up to a null pointer.
  unfoldable pub save_changes : (table id : Bytes) → List Change → Db → Bool × Db
  save_changes t id [] d = (false, d)
  save_changes t id (ch ∷ chs) d =
      let (a, d') = v.exec (update t ch.column ch.value id) d in
      let rest = save_changes t id chs in
      if ch.same then rest d else elim (is_missing a) [ true ↦ (true, d') | false ↦ rest d' ]
