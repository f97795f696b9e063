-- ===== src/Lbus/Change.antt =====
-- `handleChgCmd` of lbus.c, the commands that change a device, the network settings or the clock.
-- The mutex is recursive and left out, and so is the log. A command that was freed has no entry,
-- and reading it is a fault; a token behind the last one that jsmn wrote is not set, and reading it
-- is a fault too.
pub mod Tokens
use lielas.Base.{
  ℕ, zero, suc, ◌+◌, ◌-◌, Bool, true, false, not, Option, none, some, List, [], ◌∷◌, ◌++◌, Bytes,
  if◌then◌else◌, ltb, leb, str_eq, starts_with, codes, take, drop, length, ◌==◌, out_of_fuel, ℤ,
  pos, negsuc, ltb_ℤ, pos_part, Run, done, fault, ◌>>=◌,
}
use lielas.Tm.{Tm}
use lielas.Rtc.I2c.{Tools}
use lielas.Rtc.Clock.{Host, Rtc, rtc_set_dt}
use lielas.Device.Container.{Device, Ldc, get_device_by_id, remove}
use lielas.Json.{Token, token_text, is_named}
use lielas.Lbus.Queue.{Ptr, Cmd, Bus, get_first_cmd, get_next_cmd}
use lielas.Lbus.Settings.{Database}
use lielas.Lbus.Net.{Gateway, finish, change_net_type}

-- jsmn, which is true where it does not succeed and gives the tokens it wrote, `atoi`, and
-- `strptime` with the format of a date and a time.
pub record Reader : Type 0 where
  pub parse : Bytes → Bool × List Token
  pub atoi : Bytes → ℤ
  pub strptime : Bytes → Option Tm

-- What the handlers read of a device besides its id and address: the modules from the first one on,
-- and their channels.
pub record Modul : Type 0 where
  pub id : ℕ
  pub mint : Bytes
  pub channels : List ℕ

pub record Ldevice : Type 0 where
  pub device : Device
  pub moduls : List Modul

-- The statements on the tables of devices, modules and channels, each with an id.
pub record Rows (Db : Type 0) : Type 0 where
  pub mint_of : ℕ → Db → Option Bytes
  pub delete_channel : ℕ → Db → Db
  pub delete_modul : ℕ → Db → Db
  pub delete_device : ℕ → Db → Db

-- `INT_STR_LEN`
abbrev pub int_str_len : ℕ
int_str_len = 50

-- What `malloc`, the clock and the stack give to a call of the handler. `bufs` are the buffers for
-- the settings, and `stale` is the buffer for an id with what it held.
pub record Locals (Time : Type 0) : Type 0 where
  pub allocated : Bool
  pub ldc_allocated : Bool
  pub now : Time
  pub bufs : List Bytes
  pub stale : Bytes
  pub host : Host
  pub rtc_buf : Bytes

-- The bus with the database, the devices, the clock, and the static pointer of `lbus_handler`.
pub record Central (b : Database) (Time W Wire : Type 0) : Type 0 where
  pub gateway : Gateway b Time W
  pub ldc : Ldc
  pub devices : Ptr → Ldevice
  pub rtc : Rtc Wire
  pub current : Option Ptr

-- `strncpy` of the token into the buffer, without a zero behind it, and `atoi` of the buffer.
unfoldable pub read_id : Reader → (stale payload : Bytes) → Token → Run ℤ
read_id r stale payload t =
    let text = token_text payload t in
    if leb (length text) (length stale)
    then done (r.atoi (text ++ drop (length text) stale))
    else fault

abbrev pub head? : List Token → Option Token
head? [] = none
head? (t ∷ ts) = some t

-- Each module gets the interval of its row, if there is one.
unfoldable pub reload : {Db : Type 0} → Rows Db → Db → List Modul → Run (List Modul)
reload rows d [] = done []
reload rows d (m ∷ ms) = elim (rows.mint_of m.id d) [
  | none ↦ reload rows d ms >>= λ ms'. done (m ∷ ms')
  | some v ↦
      if ltb (length v) int_str_len
      then (reload rows d ms >>= λ ms'. done (record m { mint = v } ∷ ms'))
      else fault
]

module _ (b : Database) (rows : Rows b.Db) {Time W : Type 0} (run : Bytes → W → Bool × W)
    (later : ℕ → Time → Time) (tools : Tools) (r : Reader) where
  abbrev State : Type 0
  State = Central b Time W tools.Wire

  abbrev cmd_at : Ptr → State → Option (Cmd Time)
  cmd_at p s = s.gateway.bus.cmds p

  -- `setCmdHandled`
  unfoldable pub handled : Locals Time → Ptr → State → Run State
  handled l p s = finish b run later l.now p s.gateway >>= λ g. done (record s { gateway = g })

  unfoldable pub handled_with : Bool → Locals Time → Ptr → State → Run (Bool × State)
  handled_with failed l p s = handled l p s >>= λ s'. done (failed, s')

  -- `LDCgetDeviceById`; where it fails the pointer is not set, and the handlers go on with it.
  unfoldable pub look_up : Locals Time → ℕ → State → Run (Option Ptr × State)
  look_up l id s =
      let (failed, found, ldc') =
        get_device_by_id (λ p. (s.devices p).device) l.ldc_allocated id s.ldc in
      if failed then fault else done (found, record s { ldc = ldc' })

  -- `changeDevice` with the token behind the name. True where -1 is returned.
  unfoldable pub change_device : Locals Time → Ptr → Bytes → Token → State → Run (Bool × State)
  change_device l p payload v s = read_id r l.stale payload v >>= λ id.
      let found =
        (look_up l (pos_part id) s >>= λ (d, s₁). elim d [
          | none ↦ handled_with false l p s₁
          | some e ↦ reload rows s₁.gateway.db (s₁.devices e).moduls >>= λ ms.
              let old = s₁.devices in
              let changed = record s₁ {
                devices = λ q. if q == e then record (old q) { moduls = ms } else old q;
              } in
              handled_with false l p changed
        ]) in
      if ltb_ℤ (pos 0) id then found else done (true, s)

  -- `changeRtcDateTime`
  unfoldable pub change_rtc : Locals Time → Ptr → Bytes → Token → State → Run (Bool × State)
  change_rtc l p payload v s = elim (r.strptime (drop v.start payload)) [
    | none ↦ handled_with true l p s
    | some dt ↦
        let (failed, rtc') = rtc_set_dt tools l.host l.rtc_buf dt s.rtc in
        handled_with failed l p (record s { rtc = rtc' })
  ]

  unfoldable pub change_net : Locals Time → Ptr → State → Run (Bool × State)
  change_net l p s =
      change_net_type b run later l.allocated l.now p l.bufs s.gateway >>= λ (failed, g).
      done (failed, record s { gateway = g })

  -- What `handleChgCmd` does at a token with the name of a change; `none` at other tokens. `next`
  -- is the token behind.
  unfoldable pub change :
      Locals Time → Ptr → Bytes → Token → Option Token → State → Option (Run (Bool × State))
  change l p payload t next s =
      if is_named (codes "device") payload t
      then some (elim next [ none ↦ fault | some v ↦ change_device l p payload v s ])
      else if is_named (codes "net_type") payload t
      then some (change_net l p s)
      else if is_named (codes "rtc") payload t
      then some (elim next [ none ↦ fault | some v ↦ change_rtc l p payload v s ])
      else none

  -- The loop over the tokens, which reads the payload through the command; it stops at the first
  -- change that fails.
  unfoldable pub chg_tokens : Locals Time → Ptr → List Token → State → Run (Bool × State)
  chg_tokens l p [] s = done (false, s)
  chg_tokens l p (t ∷ ts) s =
      if t.is_string
      then (elim (cmd_at p s) [
        | none ↦ fault
        | some c ↦ elim (change l p c.payload t (head? ts) s) [
          | none ↦ chg_tokens l p ts s
          | some result ↦
              result >>= λ (failed, s'). if failed then done (true, s') else chg_tokens l p ts s'
        ]
      ])
      else chg_tokens l p ts s

  unfoldable pub handle_chg_cmd : Locals Time → Ptr → State → Run (Bool × State)
  handle_chg_cmd l p s = elim (cmd_at p s) [
    | none ↦ fault
    | some c ↦
        let (failed, tokens) = r.parse c.payload in
        if str_eq c.address (codes "liegw")
        then (if failed then done (true, s) else chg_tokens l p tokens s)
        else done (false, s)
  ]
