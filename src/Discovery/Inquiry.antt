-- ===== src/Discovery/Inquiry.antt =====
-- The questions that `LDCcheckForNewDevices` of devicecontainer.c asks a new device, up to where the
-- device is saved.
use lielas.Base.{
  ℕ, zero, suc, Bool, none, some, List, [], ◌∷◌, ◌++◌, Bytes, ltb, codes, if◌then◌else◌, get_elem?,
  ℤ, pos, negsuc, ltb_ℤ, done, ◌>>=◌,
}
use lielas.Lwp.Wkc.{Wkc, Resource, init_wkc}
use lielas.Lwp.Parse.{parse_wkc}
use lielas.Lwp.Format.{mac_to_std_mac}
use lielas.Device.Slots.{Ptr, Slots, max_slots, add}
use lielas.Device.Deletion.{created}
use lielas.Device.Container.Loading.{text_size}
use lielas.Device.Container.Saving.{Library, SavedChannel, SavedModul, SavedDevice, client_size}
use lielas.Sql.{Server}
use lielas.Handler.Coap.{Request, Reply}
use lielas.Handler.Cycle.{cycle_mode_off, set_cycle_mode}
use lielas.Handler.Logger.{string_of}
use lielas.Discovery.{Env, Step, ◌>>?◌, give, stop, lost, new_object, ask, ask_content, read_value}

-- `DEVICE_MAX_STR_LEN`
abbrev pub device_text_size : ℕ
device_text_size = 64

-- `LIELAS_STD_MINT`, `LIELAS_STD_PINT` and `LIELAS_STD_AINT`
abbrev pub std_mint : ℕ
std_mint = 600

abbrev pub std_pint : ℕ
std_pint = 2

abbrev pub std_aint : ℕ
std_aint = 60

-- The rounds of a loop from 1 to a number.
unfoldable pub rounds_of : ℤ → ℕ
rounds_of (pos n) = n
rounds_of (negsuc n) = 0

-- A device that has answered; its members stand in `saved` in their order.
pub record NewDevice (Real : Type 0) : Type 0 where
  pub saved : SavedDevice Real
  pub sw_ver : Bytes
  pub supply : Bytes
  pub wkc : Wkc

module _ {Real W : Type 0} (c : Library Real) (v : Server) (e : Env Real)
    (transmit : Request → Reply → W → Reply × W) where
  abbrev Asks : Type 0 → Type 0
  Asks A = Step Real W v.Db A

  -- The attributes of a channel, in the answer to the question for it.
  unfoldable pub read_attributes : Ptr → (j : ℕ) → Resource → Bytes → Asks (SavedChannel Real)
  read_attributes p j res answer =
      let read = read_value c v e transmit answer res in
      read (codes "unit") (e.left_unit p) text_size >>? λ unit.
      read (codes "type") (e.left_type p) text_size >>? λ type_text.
      read (codes "class") (e.left_class p) text_size >>? λ class.
      read (codes "exponent") e.ex text_size >>? λ ex.
      let exponent = c.strtod ex in
      if e.is_zero exponent
      then stop
      else give (record {
        id = 0;
        address = c.show j;
        type_text = type_text;
        unit = unit;
        class = class;
        exponent = exponent;
      })

  -- The channel with index `j`. The array `c` has 20 slots, from 0 on.
  unfoldable pub inquire_channel :
      (address : Bytes) → Wkc → (j : ℕ) → Asks (Ptr × SavedChannel Real)
  inquire_channel address w j = new_object c v e transmit >>? λ p.
      if ltb j max_slots
      then (ask_content c v e transmit address (codes "channel" ++ c.show j) >>? λ answer.
          elim (get_elem? w.channel j) [
            | none ↦ lost
            | some res ↦ read_attributes p j res answer >>? λ ch. give (p, ch)
          ])
      else lost

  -- The channels from `j` on, with the array of the module and its members so far.
  unfoldable pub inquire_channels :
      (rounds : ℕ)
      → (address : Bytes) → Wkc
      → (j : ℕ) → Slots
      → List (SavedChannel Real)
      → Asks (List (SavedChannel Real))
  inquire_channels zero address w j slots chs = give chs
  inquire_channels (suc n) address w j slots chs = inquire_channel address w j >>? λ (p, ch).
      λ s. add p slots >>= λ slots'. inquire_channels n address w (suc j) slots' (chs ++ ch ∷ []) s

  -- The count of the channels of a module; the status of the answer is not tested.
  unfoldable pub inquire_count : (address : Bytes) → Wkc → Asks ℤ
  inquire_count address w = ask c v e transmit address (codes "modul") >>? λ cb.
      read_value c v e transmit cb.buf w.modul (codes "channel_cnt") e.attr client_size >>? λ attr.
      let n = e.strtol attr in if ltb_ℤ (pos max_slots) n then stop else give n

  abbrev pub new_modul : (i : ℕ) → List (SavedChannel Real) → SavedModul Real
  new_modul i chs = record {
    id = 0;
    address = c.show i;
    mint = c.show std_mint;
    pint = c.show std_pint;
    aint = c.show std_aint;
    channels = chs;
  }

  -- The modules from `i` on; the array `m` has 20 slots, from 0 on. The module is not switched to.
  unfoldable pub inquire_moduls :
      (rounds : ℕ)
      → (address : Bytes) → Wkc
      → (i : ℕ) → Slots
      → List (SavedModul Real)
      → Asks (List (SavedModul Real))
  inquire_moduls zero address w i slots ms = give ms
  inquire_moduls (suc n) address w i slots ms = new_object c v e transmit >>? λ p.
      if ltb i max_slots
      then (inquire_count address w >>? λ count. λ s. add p slots >>= λ slots'.
          (inquire_channels (rounds_of count) address w 1 (created (c.left p)) [] >>? λ chs.
          inquire_moduls n address w (suc i) slots' (ms ++ new_modul i chs ∷ []))
            s)
      else lost

  -- The description, which is read into the buffer `wkc` and parsed.
  unfoldable pub inquire_wkc : (address : Bytes) → Wkc → Asks Wkc
  inquire_wkc address w s =
      let buf = s.cb.buf in
      let asking = record s { cb = record s.cb { buf = s.wkc } } in
      (ask_content c v e transmit address (codes ".well-known/core") >>? λ answer. λ s'.
          parse_wkc e.fuel (string_of answer) w >>= λ (failed, w'). done (
            if failed then none else some w',
            record s' { wkc = answer; cb = record s'.cb { buf = buf } },
          ))
        asking

  -- The count of the modules and what supplies the device.
  unfoldable pub inquire_device : (address : Bytes) → Ptr → Wkc → Asks (Bytes × ℤ)
  inquire_device address p w = ask_content c v e transmit address (codes "device") >>? λ answer.
      let read = read_value c v e transmit answer w.device in
      read (codes "supply") (e.left_supply p) device_text_size >>? λ supply.
      read (codes "module_cnt") e.attr client_size >>? λ attr.
      let n = e.strtol attr in if ltb_ℤ (pos max_slots) n then stop else give (supply, n)

  -- Name and version.
  unfoldable pub inquire_info : (address : Bytes) → Ptr → Wkc → Asks (Bytes × Bytes)
  inquire_info address p w = ask_content c v e transmit address (codes "info") >>? λ answer.
      let read = read_value c v e transmit answer w.info in
      read (codes "name") (e.left_name p) device_text_size >>? λ name.
      read (codes "sw_version") (e.left_sw_ver p) device_text_size >>? λ sw_ver. give (name, sw_ver)

  unfoldable pub inquire_mac : (address : Bytes) → Wkc → Asks Bytes
  inquire_mac address w = ask_content c v e transmit address (codes "network") >>? λ answer.
      read_value c v e transmit answer w.network (codes "mac") e.mac text_size >>? λ mac.
      give (string_of (mac_to_std_mac e.toupper (mac ++ 0 ∷ [])))

  unfoldable pub switch_off : (address : Bytes) → Asks Bool
  switch_off address s =
      let (failed, net') =
        set_cycle_mode transmit e.off_allocated e.off_buf address cycle_mode_off s.net in
      done (some failed, record s { net = net' })

  -- All questions to the device at an address.
  unfoldable pub inquire : (address : Bytes) → Asks (Ptr × NewDevice Real)
  inquire address = new_object c v e transmit >>? λ p. switch_off address >>? λ failed.
      inquire_wkc address (init_wkc (e.left_wkc p)) >>? λ w.
      inquire_info address p w >>? λ (name, sw_ver). inquire_mac address w >>? λ mac.
      inquire_device address p w >>? λ (supply, count).
      inquire_moduls (rounds_of count) address w 1 (created (c.left p)) [] >>? λ ms. give (
        p,
        record {
          saved = record {
            id = 0;
            address = address;
            mac = mac;
            name = name;
            mint = c.show std_mint;
            pint = c.show std_pint;
            aint = c.show std_aint;
            moduls = ms;
          };
          sw_ver = sw_ver;
          supply = supply;
          wkc = w;
        },
      )
