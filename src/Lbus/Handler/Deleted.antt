-- ===== src/Lbus/Handler/Deleted.antt =====
-- Which rows of the database are left when a device is deleted.
use lielas.Base.{ℕ, ◌≡◌, refl, Bool, false, not, ◌&&◌, ◌||◌, List, [], ◌∷◌, ◌==◌, arith}
use lielas.Lbus.Change.{Modul, Ldevice, Rows}
use lielas.Lbus.Handler.{delete_channels, delete_moduls}

-- A row of one of the three tables, by its id.
pub data DbRow : Type 0 where
  channel modul device : ℕ → DbRow

abbrev pub is_channel : ℕ → DbRow → Bool
is_channel j (channel i) = i == j
is_channel j x = false

abbrev pub is_modul : ℕ → DbRow → Bool
is_modul j (modul i) = i == j
is_modul j x = false

abbrev pub is_device : ℕ → DbRow → Bool
is_device j (device i) = i == j
is_device j x = false

-- Each statement deletes the row with the id from its table, and no other.
pub record HasRows {Db : Type 0} (rows : Rows Db) : Type 0 where
  pub there : DbRow → Db → Bool
  pub channel_gone :
      (j : ℕ) (x : DbRow) (d : Db)
      → there x (rows.delete_channel j d) ≡ (not (is_channel j x) && there x d)
  pub modul_gone :
      (j : ℕ) (x : DbRow) (d : Db)
      → there x (rows.delete_modul j d) ≡ (not (is_modul j x) && there x d)
  pub device_gone :
      (j : ℕ) (x : DbRow) (d : Db)
      → there x (rows.delete_device j d) ≡ (not (is_device j x) && there x d)

-- The rows of a device: its own, those of its modules, and those of their channels.
abbrev pub is_one_of : List ℕ → DbRow → Bool
is_one_of [] x = false
is_one_of (j ∷ js) x = is_channel j x || is_one_of js x

abbrev pub is_in_modul : List Modul → DbRow → Bool
is_in_modul [] x = false
is_in_modul (m ∷ ms) x = is_modul m.id x || is_one_of m.channels x || is_in_modul ms x

abbrev pub is_row_of : Ldevice → DbRow → Bool
is_row_of e x = is_device e.device.id x || is_in_modul e.moduls x

module _ {Db : Type 0} (rows : Rows Db) (h : HasRows rows) where
  delete_channels-there :
      (js : List ℕ) (x : DbRow) (d : Db)
      → h.there x (delete_channels rows js d) ≡ (not (is_one_of js x) && h.there x d)
  unfolding delete_channels
  delete_channels-there [] x d = refl
  delete_channels-there (j ∷ js) x d =
      ground (arith, delete_channels-there js x (rows.delete_channel j d), h.channel_gone j x d)

  delete_moduls-there :
      (ms : List Modul) (x : DbRow) (d : Db)
      → h.there x (delete_moduls rows ms d) ≡ (not (is_in_modul ms x) && h.there x d)
  unfolding delete_moduls
  delete_moduls-there [] x d = refl
  delete_moduls-there (m ∷ ms) x d =
      let d₁ = delete_channels rows m.channels d in
      ground (
        arith,
        delete_moduls-there ms x (rows.delete_modul m.id d₁),
        h.modul_gone m.id x d₁,
        delete_channels-there m.channels x d,
      )

  -- The rows of the device are gone, and all others are as they were.
  pub deleted-there :
      (e : Ldevice) (x : DbRow) (d : Db)
      → h.there x (rows.delete_device e.device.id (delete_moduls rows e.moduls d))
        ≡ (not (is_row_of e x) && h.there x d)
  deleted-there e x d = ground (
    arith,
    h.device_gone e.device.id x (delete_moduls rows e.moduls d),
    delete_moduls-there e.moduls x d,
  )
