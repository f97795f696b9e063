-- ===== src/Discovery.antt =====
-- The search for new devices, `LDCcheckForNewDevices` of liegw/src/lielas/devicecontainer.c: what it
-- works on, and one question to a device. Discovery/Inquiry has the questions to a new device,
-- Discovery/Setup what is done with one that has answered, and Discovery/Routes the table of routes.
pub mod Inquiry
pub mod Setup
pub mod Routes
pub mod Kept
pub mod Known
pub mod Added
use lielas.Base.{
  ℕ, suc, Bool, Option, none, some, [], ◌∷◌, Bytes, ◌==◌, if◌then◌else◌, codes, texts, take, ℤ, Run,
  done, fault, ◌>>=◌,
}
use lielas.Lwp.Wkc.{Wkc, Resource}
use lielas.Lwp.Attr.{get_attr_value}
use lielas.Device.Slots.{Ptr}
use lielas.Device.Container.{Device, Ldc}
use lielas.Device.Container.Loading.{Loads}
use lielas.Device.Container.Saving.{Library}
use lielas.Sql.{Server}
use lielas.Handler.Coap.{Method, get, Request, Reply, status_content, Net, send_cmd}
use lielas.Handler.Logger.{string_of}

-- The C library and the settings, the fuel of `lwp_parse_wkc`, and what stands in memory that was not
-- written: in a new device and a new channel, and in the local buffers. The buffers of the attributes
-- are written up to a zero before they are read, so what they held from an earlier use is not kept.
pub record Env (Real : Type 0) : Type 0 where
  pub port : Bytes
  pub strtol : Bytes → ℤ
  pub is_zero : Real → Bool
  pub toupper : ℕ → ℕ
  pub fuel : ℕ
  pub left_wkc : Ptr → Wkc
  pub left_name : Ptr → Bytes
  pub left_sw_ver : Ptr → Bytes
  pub left_supply : Ptr → Bytes
  pub left_unit : Ptr → Bytes
  pub left_type : Ptr → Bytes
  pub left_class : Ptr → Bytes
  pub mac : Bytes
  pub attr : Bytes
  pub ex : Bytes
  pub off_allocated : Bool
  pub on_allocated : Bool
  pub off_buf : Bytes
  pub on_buf : Bytes
  pub time_allocated : Bool
  pub time_buf : Bytes
  pub time_recv : Bytes
  pub now : ℕ
  pub now' : ℕ

-- The network, the buffer for answers, the local buffers `wkc` and `adr`, the count of the calls of
-- `malloc` with what the loader made, the database, and the devices of the container.
pub record SearchState (Real W Db : Type 0) : Type 0 where
  pub net : Net W
  pub cb : Reply
  pub wkc : Bytes
  pub adr : Bytes
  pub loads : Loads Real
  pub db : Db
  pub devices : Ptr → Device
  pub ldc : Ldc

-- A part of the search; `none` where the whole function returns.
abbrev pub Step : (Real W Db A : Type 0) → Type 0
Step Real W Db A = SearchState Real W Db → Run (Option A × SearchState Real W Db)

infixl 5 ◌>>?◌
abbrev pub ◌>>?◌ :
    {Real W Db A B : Type 0} → Step Real W Db A → (A → Step Real W Db B) → Step Real W Db B
◌>>?◌ f g s = f s >>= λ (a, s'). elim a [ none ↦ done (none, s') | some x ↦ g x s' ]

abbrev pub give : {Real W Db A : Type 0} → A → Step Real W Db A
give x s = done (some x, s)

abbrev pub stop : {Real W Db A : Type 0} → Step Real W Db A
stop s = done (none, s)

abbrev pub lost : {Real W Db A : Type 0} → Step Real W Db A
lost s = fault

-- `snprintf` into `cmd`, of 1000 bytes.
abbrev pub resource_request : (address port resource : Bytes) → Request
resource_request address port resource = record {
  uri =
      take 999 (texts (codes "coap://[" ∷ address ∷ codes "]:" ∷ port ∷ codes "/" ∷ resource ∷ []));
  method = get;
  post = [];
}

module _ {Real W : Type 0} (c : Library Real) (v : Server) (e : Env Real)
    (transmit : Request → Reply → W → Reply × W) where
  abbrev Asks : Type 0 → Type 0
  Asks A = Step Real W v.Db A

  -- What `malloc` gives is used without a test.
  unfoldable pub new_object : Asks Ptr
  new_object s = elim (c.malloc s.loads.calls) [
    | none ↦ fault
    | some p ↦ done (some p, record s { loads = record s.loads { calls = suc s.loads.calls } })
  ]

  -- A question to a device: its status and the buffer.
  unfoldable pub ask : (address resource : Bytes) → Asks Reply
  ask address resource s =
      let (cb', net') = send_cmd transmit (resource_request address e.port resource) s.cb s.net in
      done (some cb', record s { cb = cb'; net = net' })

  -- Any status but 2.05 ends the search.
  unfoldable pub ask_content : (address resource : Bytes) → Asks Bytes
  ask_content address resource =
      ask address resource >>? λ cb. if cb.status == status_content then give cb.buf else stop

  -- The value of an attribute in an answer.
  unfoldable pub read_value :
      (answer : Bytes) → Resource → (name buf : Bytes) → (size : ℕ) → Asks Bytes
  read_value answer res name buf size s =
      get_attr_value answer res name buf size >>= λ (failed, buf').
      done (if failed then none else some (string_of buf'), s)
