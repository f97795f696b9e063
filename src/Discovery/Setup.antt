-- ===== src/Discovery/Setup.antt =====
-- What `LDCcheckForNewDevices` of devicecontainer.c does with a device that is not in the container:
-- it is asked, added, saved and set up.
use lielas.Base.{
  ℕ, suc, Bool, true, false, none, some, [], Bytes, ◌==◌, codes, if◌then◌else◌, Run, done, ◌>>=◌,
}
use lielas.Tm.{Tm}
use lielas.Device.Slots.{Ptr}
use lielas.Device.Container.{missing, empty, holds, add}
use lielas.Device.Container.Saving.{Library, save_wkc, save_new_device}
use lielas.Device.Container.Saving.Updated.{load_and_save}
use lielas.Sql.{Server}
use lielas.Handler.Coap.{Request, Reply, send_cmd}
use lielas.Handler.Cycle.{cycle_mode_on, set_cycle_mode}
use lielas.Handler.Logger.{string_of, logger_put}
use lielas.Handler.Runmode.{Calendar}
use lielas.Handler.Scan.{DataTable, TimeText, Target, set_datetime}
use lielas.Discovery.{Env, SearchState, Step, ◌>>?◌, give}
use lielas.Discovery.Inquiry.{NewDevice, inquire}

-- What `DeviceSetDatetime` is given; of this it reads the address and the description.
abbrev pub target_of : {Real : Type 0} → NewDevice Real → Target
target_of n = record {
  address = n.saved.address;
  mac = n.saved.mac;
  mint = n.saved.mint;
  channels = 0;
  modul_address = [];
  channel_address = λ i. [];
  wkc = n.wkc;
}

-- A call of `malloc`: whether it gave something.
abbrev pub allocates : {Real : Type 0} → Library Real → ℕ → Bool
allocates c n = elim (c.malloc n) [ none ↦ false | some p ↦ true ]

module _ {Real W : Type 0} (c : Library Real) (v : Server) (e : Env Real)
    (transmit : Request → Reply → W → Reply × W) where
  abbrev At : Type 0
  At = SearchState Real W v.Db

  abbrev Asks : Type 0 → Type 0
  Asks A = Step Real W v.Db A

  -- `LDCadd`, which needs a new container behind others; its result is not used.
  unfoldable pub add_device : Ptr → NewDevice Real → At → At
  add_device p n s =
      let calls : ℕ = elim s.ldc [
        | missing ↦ s.loads.calls
        | empty ↦ s.loads.calls
        | holds f rest ↦ suc s.loads.calls
      ] in
      record s {
        ldc = (add (allocates c s.loads.calls) p s.ldc).1;
        loads = record s.loads { calls = calls };
        devices = λ q. if q == p then record { id = 0; address = n.saved.address } else s.devices q;
      }

  -- The device gets its row and its id, then its members theirs, and its description is saved.
  unfoldable pub save_device : Ptr → NewDevice Real → At → Run At
  save_device p n s =
      let (saved, d₁) = save_new_device c v n.saved s.db in
      load_and_save c v saved d₁ s.loads >>= λ (bad, saved', d₂, loads'). done (record s {
        db = (save_wkc c v (string_of s.wkc) saved'.id d₂).1;
        loads = loads';
        devices = λ q.
            if q == p then record { id = saved'.id; address = n.saved.address } else s.devices q;
      })

  module _ (t : DataTable) (cal : Calendar) (x : TimeText cal.Broken) (mktime : Tm → Tm)
      (print : Target → (cnr raw : ℕ) → Bytes) where
    -- Clock, interval and state of the logger, and the cycle mode; no result is used.
    unfoldable pub set_up : NewDevice Real → At → Run At
    set_up n s =
        let address = n.saved.address in
        set_datetime t cal x transmit mktime print e.time_allocated e.time_buf e.time_recv e.now
          e.now' (target_of n) s.net
        >>= λ (failed, net₁).
            let (cb₂, net₂) =
              send_cmd transmit (logger_put address (codes "interval=600")) s.cb net₁ in
            let (cb₃, net₃) = send_cmd transmit (logger_put address (codes "state=1")) cb₂ net₂ in
            done (record s {
              cb = cb₃;
              net = (set_cycle_mode transmit e.on_allocated e.on_buf address cycle_mode_on net₃).1;
            })

    unfoldable pub register : Ptr → NewDevice Real → At → Run At
    register p n s = save_device p n (add_device p n s) >>= set_up n

    -- The address where no device is known.
    unfoldable pub new_device : (address : Bytes) → Asks Ptr
    new_device address = inquire c v e transmit address >>? λ (p, n). λ s. register p n s >>= give p
