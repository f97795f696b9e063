-- ===== src/Lbus/Handler/Unknown.antt =====
-- A command that the handler does not know.
use lielas.Base.{
  ℕ, ◌∙◌, ◌≡◌, refl, Bool, true, false, none, some, [], ◌∷◌, ◌++◌, Bytes, str_eq, codes, done,
}
use lielas.Rtc.I2c.{Tools}
use lielas.Lbus.Queue.{Ptr, Cmd, Node, Bus}
use lielas.Lbus.Settings.{Database}
use lielas.Lbus.Net.{finish}
use lielas.Lbus.Net.Relogin.{IsOnly, set_cmd_handled-only}
use lielas.Lbus.Change.{Reader, Rows, Locals, Central, handled}
use lielas.Lbus.Handler.{dispatch, take_cmd, lbus_handler}
use lielas.Lbus.Handler.Login.{taken, lbus_handler-first, get_next_cmd-last}

module _ (b : Database) (rows : Rows b.Db) {Time W : Type 0} (run : Bytes → W → Bool × W)
    (later : ℕ → Time → Time) (tools : Tools) (r : Reader) where
  abbrev State : Type 0
  State = Central b Time W tools.Wire

  -- The only command of the bus is handled: what the bus is then.
  pub handled-only :
      (l : Locals Time) (p : Ptr) (c : Cmd Time) (s : State)
      → (only : IsOnly p c s.gateway.bus)
      → (bus' : Bus Time) × (handled b rows run later tools r l p s
          ≡ done (record s { gateway = record s.gateway { bus = bus' } }))
        × (bus'.cmds p ≡ none)
        × (bus'.saved
            ≡ s.gateway.bus.saved ++ (record c { handled = true; tmhandled = some l.now } ∷ []))
        × (bus'.chain ≡ record { con = only.con; lcmd = none } ∷ [])
        × (bus'.cursor ≡ s.gateway.bus.cursor)
  unfolding handled finish
  handled-only l p c s only =
      let (bus', ran, kept, freed, saved, chain, cursor) =
        set_cmd_handled-only l.now p c s.gateway.bus only in
      (bus', rw ran refl, freed, saved, chain, cursor)

  -- The handler drops the only command of the bus where it does not know it and the command has no
  -- time for its next run: the command is saved as handled and freed, the database and the devices
  -- stay as they are, and the next call finds no command.
  pub lbus_handler-unknown :
      (is_due : Time → Time → Bool) (l l' : Locals Time) (p : Ptr) (c : Cmd Time) (s : State)
      → s.current ≡ none
      → IsOnly p c s.gateway.bus
      → c.tmnexthandle ≡ none
      → str_eq c.cmd (codes "del") ≡ false
      → str_eq c.cmd (codes "chg") ≡ false
      → str_eq c.cmd (codes "login") ≡ false
      → (s' : State) × (lbus_handler b rows run later tools r is_due l s ≡ done s')
        × (s'.gateway.bus.cmds p ≡ none)
        × (s'.gateway.bus.saved
            ≡ s.gateway.bus.saved ++ (record c { handled = true; tmhandled = some l.now } ∷ []))
        × (s'.gateway.db ≡ s.gateway.db)
        × (s'.ldc ≡ s.ldc)
        × (lbus_handler b rows run later tools r is_due l' s'
            ≡ done (record s' {
              gateway = record s'.gateway { bus = record s'.gateway.bus { cursor = none } };
              current = none;
            }))
  unfolding dispatch lbus_handler take_cmd
  lbus_handler-unknown is_due l l' p c s start only due del chg login =
      let n : Node = record { con = only.con; lcmd = some p } in
      let s₁ = taken b rows run later tools r (some p) n s in
      let only₁ : IsOnly p c s₁.gateway.bus = record {
        con = only.con;
        chain = only.chain;
        live = only.live;
      } in
      let (bus', ran, freed, saved, chain, cursor) = handled-only l p c s₁ only₁ in
      let begun =
        lbus_handler-first b rows run later tools r is_due l p c n [] s start only.chain refl
          only.live due in
      let unknown : dispatch b rows run later tools r l p c s₁
          ≡ done (record s₁ { gateway = record s₁.gateway { bus = bus' } }) =
        rw (del, chg, login, ran, dispatch) refl in
      let next = get_next_cmd-last (record { con = only.con; lcmd = none }) bus' chain cursor in
      (
        record s₁ { gateway = record s₁.gateway { bus = bus' } },
        begun ∙ unknown,
        freed,
        saved,
        refl,
        refl,
        rw (next, lbus_handler, take_cmd) refl,
      )
