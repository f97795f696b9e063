-- ===== src/Lbus/Handler.antt =====
-- `lbus_handler` of lbus.c, which takes the pending commands in turn, and the handlers of the
-- commands to delete a device and to log in. The mutex and the log are left out.
pub mod Login
pub mod Unknown
pub mod Deleted
pub mod Delete
use lielas.Base.{
  ℕ, zero, suc, Bool, true, false, Option, none, some, List, [], ◌∷◌, Bytes, if◌then◌else◌, str_eq,
  codes, length, pos, ltb_ℤ, pos_part, Run, done, fault, out_of_fuel, ◌>>=◌,
}
use lielas.Rtc.I2c.{Tools}
use lielas.Device.Container.{remove}
use lielas.Lbus.Queue.{Ptr, Cmd, Bus, get_first_cmd, get_next_cmd}
use lielas.Lbus.Settings.{Database}
use lielas.Json.{Token, is_named}
use lielas.Lbus.Change.{
  Reader, Modul, Rows, Locals, Central, read_id, handled, look_up, handle_chg_cmd,
}

unfoldable pub delete_channels : {Db : Type 0} → Rows Db → List ℕ → Db → Db
delete_channels rows [] d = d
delete_channels rows (i ∷ more) d = delete_channels rows more (rows.delete_channel i d)

-- The rows of the channels of each module, and then that of the module.
unfoldable pub delete_moduls : {Db : Type 0} → Rows Db → List Modul → Db → Db
delete_moduls rows [] d = d
delete_moduls rows (m ∷ ms) d =
    delete_moduls rows ms (rows.delete_modul m.id (delete_channels rows m.channels d))

module _ (b : Database) (rows : Rows b.Db) {Time W : Type 0} (run : Bytes → W → Bool × W)
    (later : ℕ → Time → Time) (tools : Tools) (r : Reader) where
  abbrev State : Type 0
  State = Central b Time W tools.Wire

  -- The device's rows are deleted, and it is taken out of the container.
  unfoldable pub delete_ldevice : Ptr → State → State
  delete_ldevice e s =
      let d = s.devices e in
      let db' = rows.delete_device d.device.id (delete_moduls rows d.moduls s.gateway.db) in
      record s { gateway = record s.gateway { db = db' }; ldc = (remove e s.ldc).1 }

  unfoldable pub del_device : Locals Time → Ptr → ℕ → State → Run State
  del_device l p id s = look_up b rows run later tools r l id s >>= λ (d, s₁). elim d [
    | none ↦ handled b rows run later tools r l p s₁
    | some e ↦ handled b rows run later tools r l p (delete_ldevice e s₁)
  ]

  -- The loop of `handleDelCmd`. The token behind a name is skipped; an id that is not positive ends
  -- the handler.
  unfoldable pub del_tokens : Locals Time → Ptr → List Token → State → Run State
  del_tokens l p [] s = done s
  del_tokens l p (t ∷ []) s =
      if t.is_string
      then (elim (s.gateway.bus.cmds p) [
        | none ↦ fault
        | some c ↦ if is_named (codes "device") c.payload t then fault else done s
      ])
      else done s
  del_tokens l p (t ∷ v ∷ ts) s =
      let skipped = del_tokens l p (v ∷ ts) s in
      if t.is_string
      then (elim (s.gateway.bus.cmds p) [
        | none ↦ fault
        | some c ↦
            let deleted =
              (read_id r l.stale c.payload v >>= λ id.
              if ltb_ℤ (pos 0) id
              then (del_device l p (pos_part id) s >>= λ s'. del_tokens l p ts s')
              else done s) in
            if is_named (codes "device") c.payload t then deleted else skipped
      ])
      else skipped

  -- Where jsmn fails, the tokens it wrote are used all the same.
  unfoldable pub handle_del_cmd : Locals Time → Ptr → State → Run State
  handle_del_cmd l p s = elim (s.gateway.bus.cmds p) [
    | none ↦ fault
    | some c ↦
        if str_eq c.address (codes "liegw") then del_tokens l p (r.parse c.payload).1 s else done s
  ]

  -- The loop of `handleLoginCmd` from the command that the cursor gave.
  unfoldable pub login_rounds : ℕ → Locals Time → Option Ptr → State → Run State
  login_rounds fuel l none s = done s
  login_rounds zero l (some p) s = out_of_fuel
  login_rounds (suc fuel) l (some p) s = elim (s.gateway.bus.cmds p) [
    | none ↦ fault
    | some c ↦
        (if str_eq c.cmd (codes "chg")
          then handle_chg_cmd b rows run later tools r l p s
          else done (false, s))
        >>= λ (_, s₁). get_next_cmd s₁.gateway.bus >>= λ (next, bus').
            login_rounds fuel l next (record s₁ { gateway = record s₁.gateway { bus = bus' } })
  ]

  -- A round for each container of the chain.
  unfoldable pub handle_login_cmd : Locals Time → Ptr → State → Run State
  handle_login_cmd l p s = handled b rows run later tools r l p s >>= λ s₁.
      let bus₁ = record s₁.gateway.bus { net_type_changed = false } in
      let (first, bus₂) = get_first_cmd bus₁ in
      login_rounds (length bus₂.chain) l first
        (record s₁ { gateway = record s₁.gateway { bus = bus₂ } })

  unfoldable pub dispatch : Locals Time → Ptr → Cmd Time → State → Run State
  dispatch l p c s =
      if str_eq c.cmd (codes "del")
      then handle_del_cmd l p s
      else if str_eq c.cmd (codes "chg")
      then (handle_chg_cmd b rows run later tools r l p s >>= λ (_, s'). done s')
      else if str_eq c.cmd (codes "login")
      then handle_login_cmd l p s
      else handled b rows run later tools r l p s

  -- The first command, or the one behind the last that was taken.
  unfoldable pub take_cmd : State → Run (Option Ptr × State)
  take_cmd s =
      let moved : Run (Option Ptr × Bus Time) = (elim s.current [
        | none ↦ done (get_first_cmd s.gateway.bus)
        | some _ ↦ get_next_cmd s.gateway.bus
      ]) in
      moved >>= λ (p, bus').
      done (p, record s { gateway = record s.gateway { bus = bus' }; current = p })

  -- A command that has no time for its next run, or whose time has come; `is_due next now` is
  -- `difftime(mktime(next), mktime(now)) < 1.0`.
  unfoldable pub run_cmd : (is_due : Time → Time → Bool) → Locals Time → Ptr → State → Run State
  run_cmd is_due l p s = elim (s.gateway.bus.cmds p) [
    | none ↦ fault
    | some c ↦
        let runs : Bool = (elim c.tmnexthandle [ none ↦ true | some next ↦ is_due next l.now ]) in
        if runs then dispatch l p c s else done s
  ]

  unfoldable pub lbus_handler : (is_due : Time → Time → Bool) → Locals Time → State → Run State
  lbus_handler is_due l s =
      take_cmd s >>= λ (p, s₁). elim p [ none ↦ done s₁ | some q ↦ run_cmd is_due l q s₁ ]
