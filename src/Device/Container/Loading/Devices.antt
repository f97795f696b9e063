-- ===== src/Device/Container/Loading/Devices.antt =====
-- `LDCloadDevices` of devicecontainer.c: the rows of the table of devices are loaded and added to the
-- container.
use lielas.Base.{
  ℕ, suc, Bool, true, false, ◌&&◌, Option, none, some, List, [], ◌∷◌, Bytes, ◌==◌, ltb,
  if◌then◌else◌, length, Run, done, fault, ◌>>=◌,
}
use lielas.Lwp.Wkc.{Wkc, init_wkc}
use lielas.Lwp.Parse.{parse_wkc}
use lielas.Device.Slots.{Ptr, Slots}
use lielas.Device.Deletion.{created}
use lielas.Device.Container.{Ldc, missing, empty, holds, add}
use lielas.Device.Container.Loading.{Tables, Loads, text_size, channels_size, load_moduls}

-- `CLIENT_BUFFER_LEN`, the size of the buffer for the description.
abbrev pub wkc_size : ℕ
wkc_size = 1000

-- The columns that are read; that of the ids of the modules is copied into 500 bytes.
pub record DeviceRow : Type 0 where
  pub id : Bytes
  pub address : Bytes
  pub mac : Bytes
  pub mint : Bytes
  pub pint : Bytes
  pub aint : Bytes
  pub moduls : Bytes
  pub wkc : Bytes

-- The members of a device that are set from its row.
pub record ListedDevice : Type 0 where
  pub id : ℕ
  pub address : Bytes
  pub mac : Bytes
  pub mint : Bytes
  pub pint : Bytes
  pub aint : Bytes
  pub moduls : Slots
  pub wkc : Wkc

-- 0, -1 and `LDC_FAILED_TO_ALOCATE_MEMORY`.
pub data Listing : Type 0 where
  listed failed no_memory : Listing

-- What was loaded, with the count of the calls of `malloc`, and the container.
pub record Listed (Real : Type 0) : Type 0 where
  pub loads : Loads Real
  pub devices : Ptr → Option ListedDevice
  pub ldc : Ldc

unfoldable pub row_fits : DeviceRow → Bool
row_fits r =
    ltb (length r.address) text_size
    && ltb (length r.mac) text_size
    && ltb (length r.mint) text_size
    && ltb (length r.pint) text_size
    && ltb (length r.aint) text_size
    && ltb (length r.moduls) channels_size
    && ltb (length r.wkc) wkc_size

-- `left_wkc` is what `malloc` left in the description of a new device, `fuel` that of its parser.
module _ {Real : Type 0} (rows : Tables Real) (fuel : ℕ) (left_wkc : Ptr → Wkc) where
  abbrev pub listed_device : DeviceRow → Slots → Wkc → ListedDevice
  listed_device r moduls w = record {
    id = rows.atoi r.id;
    address = r.address;
    mac = r.mac;
    mint = r.mint;
    pint = r.pint;
    aint = r.aint;
    moduls = moduls;
    wkc = w;
  }

  -- `LDCadd`, which needs a new container behind others; its result is not used.
  unfoldable pub list_new : Ptr → ListedDevice → Listed Real → Listed Real
  list_new p d s =
      let made : Bool = elim (rows.malloc s.loads.calls) [ none ↦ false | some q ↦ true ] in
      let calls : ℕ = elim s.ldc [
        | missing ↦ s.loads.calls
        | empty ↦ s.loads.calls
        | holds f rest ↦ suc s.loads.calls
      ] in
      record {
        loads = record s.loads { calls = calls };
        devices = λ q. if q == p then some d else s.devices q;
        ldc = (add made p s.ldc).1;
      }

  -- One row; `none` where the loop goes on.
  unfoldable pub list_device : DeviceRow → Listed Real → Run (Option Listing × Listed Real)
  list_device r s =
      let s₁ = record s.loads { calls = suc s.loads.calls } in
      elim (rows.malloc s.loads.calls) [
        | none ↦ done (some no_memory, record s { loads = s₁ })
        | some p ↦
            if row_fits r
            then (parse_wkc fuel r.wkc (init_wkc (left_wkc p)) >>= λ (bad, w). elim bad [
              | true ↦ done (some failed, record s { loads = s₁ })
              | false ↦
                  load_moduls rows r.moduls (record s₁ { members = created (rows.left p) })
                  >>= λ s₂.
                      done
                        (none, list_new p (listed_device r s₂.members w) (record s { loads = s₂ }))
            ])
            else fault
      ]

  unfoldable pub list_devices : List DeviceRow → Listed Real → Run (Listing × Listed Real)
  list_devices [] s = done (listed, s)
  list_devices (r ∷ rs) s =
      let rest = list_devices rs in
      list_device r s >>= λ (e, s'). elim e [ some code ↦ done (code, s') | none ↦ rest s' ]

  -- No rows where the statement fails.
  unfoldable pub load_devices : Option (List DeviceRow) → Listed Real → Run (Listing × Listed Real)
  load_devices none s = done (failed, s)
  load_devices (some rs) s = list_devices rs s
