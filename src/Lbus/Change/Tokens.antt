-- ===== src/Lbus/Change/Tokens.antt =====
-- The command that changes the network settings, as its payload names it.
use lielas.Base.{
  ℕ, ◌∙◌, ◌≡◌, refl, Bool, true, false, some, List, [], ◌∷◌, Bytes, All, str_eq_refl, codes, done,
  fault,
}
use lielas.Rtc.I2c.{Tools}
use lielas.Lbus.Queue.{Ptr, Cmd}
use lielas.Lbus.Settings.{Database}
use lielas.Lbus.Net.{Gateway, change_net_type}
use lielas.Lbus.Net.Relogin.{IsOnly, change_net_type-restores}
use lielas.Lbus.Net.{ipchanger}
use lielas.Json.{Token, is_named}
use lielas.Lbus.Change.{
  Reader, Rows, Locals, Central, head?, change, change_net, chg_tokens, handle_chg_cmd,
}

-- A command for the gateway whose payload jsmn reads as an object, the name `net_type` and the
-- tokens behind it.
pub record IsNetChange {Time : Type 0} (r : Reader) (c : Cmd Time) (more : List Token)
    : Type 0 where
  pub object : Token
  pub name : Token
  pub liegw : c.address ≡ codes "liegw"
  pub parsed : r.parse c.payload ≡ (false, object ∷ name ∷ more)
  pub object_kind : object.is_string ≡ false
  pub name_kind : name.is_string ≡ true
  pub other : is_named (codes "device") c.payload name ≡ false
  pub named : is_named (codes "net_type") c.payload name ≡ true

module _ (b : Database) (rows : Rows b.Db) {Time W : Type 0} (run : Bytes → W → Bool × W)
    (later : ℕ → Time → Time) (tools : Tools) (r : Reader) where
  abbrev State : Type 0
  State = Central b Time W tools.Wire

  chg_tokens-plain :
      (l : Locals Time) (p : Ptr) (more : List Token) (s : State)
      → All (λ t. t.is_string ≡ false) more
      → chg_tokens b rows run later tools r l p more s ≡ done (false, s)
  unfolding chg_tokens
  chg_tokens-plain l p [] s h = refl
  chg_tokens-plain l p (t ∷ more) s h = rw h.0 (chg_tokens-plain l p more s h.1)

  handle_chg_cmd-tokens :
      (l : Locals Time) (p : Ptr) (c : Cmd Time) (more : List Token) (s : State)
      → (net : IsNetChange r c more) → s.gateway.bus.cmds p ≡ some c
      → handle_chg_cmd b rows run later tools r l p s
        ≡ chg_tokens b rows run later tools r l p (net.object ∷ net.name ∷ more) s
  unfolding handle_chg_cmd
  handle_chg_cmd-tokens l p c more s net live =
      rw (live, net.parsed, net.liegw, str_eq_refl (codes "liegw"), handle_chg_cmd) refl

  -- Once the settings are changed, the tokens behind the name are looked at.
  handle_chg_cmd-net :
      (l : Locals Time) (p : Ptr) (c : Cmd Time) (more : List Token) (s : State)
      (g : Gateway b Time W)
      → IsNetChange r c more
      → s.gateway.bus.cmds p ≡ some c
      → change_net_type b run later l.allocated l.now p l.bufs s.gateway ≡ done (false, g)
      → handle_chg_cmd b rows run later tools r l p s
        ≡ chg_tokens b rows run later tools r l p more (record s { gateway = g })
  unfolding chg_tokens change change_net
  handle_chg_cmd-net l p c more s g net live changed =
      let is_net : change b rows run later tools r l p c.payload net.name (head? more) s
          ≡ some (done (false, record s { gateway = g })) =
        rw (net.other, net.named, changed) refl in
      let name : chg_tokens b rows run later tools r l p (net.name ∷ more) s
          ≡ chg_tokens b rows run later tools r l p more (record s { gateway = g }) =
        rw (net.name_kind, live, is_net, chg_tokens) refl in
      let object : chg_tokens b rows run later tools r l p (net.object ∷ net.name ∷ more) s
          ≡ chg_tokens b rows run later tools r l p (net.name ∷ more) s =
        rw (net.object_kind, chg_tokens) refl in
      handle_chg_cmd-tokens l p c more s net live ∙ object ∙ name

  pub handle_chg_cmd-plain :
      (l : Locals Time) (p : Ptr) (c : Cmd Time) (more : List Token) (s : State)
      (g : Gateway b Time W)
      → IsNetChange r c more
      → s.gateway.bus.cmds p ≡ some c
      → change_net_type b run later l.allocated l.now p l.bufs s.gateway ≡ done (false, g)
      → All (λ t. t.is_string ≡ false) more
      → handle_chg_cmd b rows run later tools r l p s ≡ done (false, record s { gateway = g })
  handle_chg_cmd-plain l p c more s g net live changed plain =
      rw (handle_chg_cmd-net l p c more s g net live changed)
        (chg_tokens-plain l p more (record s { gateway = g }) plain)

  -- Where the value of the name `net_type` is a string, the second run of the network command
  -- without a login, whose command line succeeds, frees the only command of the bus and then reads
  -- the payload of the freed command.
  pub handle_chg_cmd_freed :
      (l : Locals Time) (t : Time) (p : Ptr) (c : Cmd Time) (v : Token) (more : List Token)
      (s : State) (w : W)
      → IsNetChange r c (v ∷ more)
      → v.is_string ≡ true
      → IsOnly p c s.gateway.bus
      → c.tmnexthandle ≡ some t
      → s.gateway.bus.net_type_changed ≡ true
      → run (ipchanger (codes "restore" ∷ [])) s.gateway.world ≡ (false, w)
      → handle_chg_cmd b rows run later tools r l p s ≡ fault
  unfolding chg_tokens
  handle_chg_cmd_freed l t p c v more s w net kind only second no_login ran =
      let (g, changed, _, _, freed) =
        change_net_type-restores b run later l.allocated l.now t p c l.bufs s.gateway only second
          no_login in
      let changed' : change_net_type b run later l.allocated l.now p l.bufs s.gateway
          ≡ done (false, g) =
        rw (changed, ran) refl in
      rw (handle_chg_cmd-net l p c (v ∷ more) s g net only.live changed', kind, freed) refl
