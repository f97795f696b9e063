-- ===== src/Lbus/Handler/Login.antt =====
-- A login while a change of the network settings waits for it.
use lielas.Base.{
  ℕ, ◌<◌, ◌∙◌, ap, ◌≡◌, refl, Bool, true, false, Option, none, some, List, [], ◌∷◌, ◌++◌, Bytes,
  ◌==◌, if◌then◌else◌, ==_iff, arith, All, length, str_eq, str_eq_refl, codes, done,
}
use lielas.Rtc.I2c.{Tools}
use lielas.Lbus.Queue.{
  Ptr, Cmd, Node, Bus, find_node, move_to, get_first_cmd, get_next_cmd, store, save_cmd, search_id,
  unlink, remove, set_cmd_handled,
}
use lielas.Lbus.Settings.{Database, buf_len}
use lielas.Lbus.Settings.Table.{IsTable, Holds, HaveRows, IsQuotable}
use lielas.Lbus.Net.{new_names, std_names, finish}
use lielas.Lbus.Net.Relogin.{IsOnly, change_net_type-login}
use lielas.Json.{Token}
use lielas.Lbus.Change.{Reader, Rows, Locals, Central, handled}
use lielas.Lbus.Change.Tokens.{IsNetChange, handle_chg_cmd-plain}
use lielas.Lbus.Handler.{login_rounds, handle_login_cmd, dispatch, take_cmd, run_cmd, lbus_handler}

-- The first of several commands is saved as handled and leaves the chain; it is not freed.
abbrev pub after_first :
    {Time : Type 0} (now : Time) (p : Ptr) (c : Cmd Time) (rest : List Node) (s : Bus Time)
    → Bus Time
after_first now p c rest s =
    let c' : Cmd _ = record c { handled = true; tmhandled = some now } in
    record s {
      cmds = λ q. if q == p then some c' else s.cmds q;
      saved = s.saved ++ c' ∷ [];
      chain = rest;
    }

module _ {Time : Type 0} where
  set_cmd_handled-first :
      (now : Time) (p : Ptr) (n m : Node) (ns : List Node) (c : Cmd Time) (s : Bus Time)
      → s.chain ≡ n ∷ m ∷ ns
      → n.lcmd ≡ some p
      → s.cmds p ≡ some c
      → set_cmd_handled now p s ≡ done (after_first now p c (m ∷ ns) s)
  unfolding set_cmd_handled remove search_id unlink store save_cmd
  set_cmd_handled-first now p n m ns c s chain first live =
      let same = (==_iff p p).1 refl in
      let same_id = (==_iff c.id c.id).1 refl in ground (arith, same, same_id)

  pub get_next_cmd-last :
      (n : Node) (s : Bus Time)
      → s.chain ≡ n ∷ []
      → s.cursor ≡ some n.con
      → get_next_cmd s ≡ done (none, record s { cursor = none })
  unfolding get_next_cmd find_node move_to
  get_next_cmd-last n s chain cursor =
      let same = (==_iff n.con n.con).1 refl in ground (arith, same)

-- The two commands of the bus, a login and a change of the network settings behind it.
pub record IsLogin {Time : Type 0} (r : Reader) (p q : Ptr) (c d : Cmd Time) (more : List Token)
    (s : Bus Time) : Type 0 where
  pub con : Ptr
  pub con' : Ptr
  pub chain :
      s.chain ≡ record { con = con; lcmd = some p } ∷ record { con = con'; lcmd = some q } ∷ []
  pub live : s.cmds p ≡ some c
  pub live' : s.cmds q ≡ some d
  pub apart : (q == p) ≡ false
  pub login : c.cmd ≡ codes "login"
  pub chg : d.cmd ≡ codes "chg"
  pub net : IsNetChange r d more

module _ (b : Database) (rows : Rows b.Db) {Time W : Type 0} (run : Bytes → W → Bool × W)
    (later : ℕ → Time → Time) (tools : Tools) (r : Reader) where
  abbrev State : Type 0
  State = Central b Time W tools.Wire

  -- The state once the handler has taken the command of the first container.
  abbrev pub taken : Option Ptr → Node → State → State
  taken p n s = record s {
    gateway = record s.gateway { bus = record s.gateway.bus { cursor = some n.con } };
    current = p;
  }

  take_cmd-first :
      (n : Node) (ns : List Node) (s : State)
      → s.current ≡ none
      → s.gateway.bus.chain ≡ n ∷ ns
      → take_cmd b rows run later tools r s ≡ done (n.lcmd, taken n.lcmd n s)
  unfolding take_cmd get_first_cmd
  take_cmd-first n ns s start chain = rw (start, chain) refl

  -- The first command, where none was taken before and it has no time for its next run.
  pub lbus_handler-first :
      (is_due : Time → Time → Bool) (l : Locals Time) (p : Ptr) (c : Cmd Time) (n : Node)
      (ns : List Node) (s : State)
      → s.current ≡ none
      → s.gateway.bus.chain ≡ n ∷ ns
      → n.lcmd ≡ some p
      → s.gateway.bus.cmds p ≡ some c
      → c.tmnexthandle ≡ none
      → lbus_handler b rows run later tools r is_due l s
        ≡ dispatch b rows run later tools r l p c (taken (some p) n s)
  unfolding lbus_handler run_cmd
  lbus_handler-first is_due l p c n ns s start chain holds live due =
      let first : take_cmd b rows run later tools r s ≡ done (some p, taken (some p) n s) =
        take_cmd-first n ns s start chain ∙ ap (λ x. done (x, taken x n s)) holds in
      let runs : (elim c.tmnexthandle as (λ x. Bool) [
        | none ↦ true
        | some next ↦ is_due next l.now
      ])
          ≡ true =
        rw due refl in
      let runs_it : run_cmd b rows run later tools r is_due l p (taken (some p) n s)
          ≡ dispatch b rows run later tools r l p c (taken (some p) n s) =
        rw (live, run_cmd) (rw runs refl) in
      rw (first, lbus_handler) runs_it

  dispatch-login :
      (l : Locals Time) (p : Ptr) (c : Cmd Time) (s : State)
      → c.cmd ≡ codes "login"
      → dispatch b rows run later tools r l p c s ≡ handle_login_cmd b rows run later tools r l p s
  unfolding dispatch str_eq
  dispatch-login l p c s e = rw (e, dispatch) refl

  handle_login_cmd-net :
      (table : IsTable b) (l : Locals Time) (t : Time) (p q : Ptr) (c d : Cmd Time)
      (more : List Token) (vs : List Bytes) (s : State)
      → IsLogin r p q c d more s.gateway.bus
      → All (λ k. k.is_string ≡ false) more
      → d.tmnexthandle ≡ some t
      → Holds b table vs new_names s.gateway.db
      → HaveRows b table std_names s.gateway.db
      → All (IsQuotable b table) vs
      → All (λ v. length v < buf_len) vs
      → length l.bufs ≡ 6
      → length vs ≡ 6
      → (s' : State) × (handle_login_cmd b rows run later tools r l p s ≡ done s')
        × Holds b table vs std_names s'.gateway.db
        × (s'.gateway.world ≡ s.gateway.world)
        × (s'.gateway.bus.cmds q ≡ none)
  unfolding handle_login_cmd handled finish login_rounds get_first_cmd
  handle_login_cmd-net table l t p q c d more vs s pair plain second new old quotable short six
        six' =
      let n' : Node = record { con = pair.con'; lcmd = some q } in
      let bus₁ = record (after_first l.now p c (n' ∷ []) s.gateway.bus) {
        net_type_changed = false;
        cursor = some pair.con';
      } in
      let first =
        set_cmd_handled-first l.now p (record { con = pair.con; lcmd = some p }) n' [] c
          s.gateway.bus pair.chain refl pair.live in
      let s₁ : State = record s { gateway = record s.gateway { bus = bus₁ } } in
      let only : IsOnly q d bus₁ = record {
        con = pair.con';
        chain = refl;
        live = rw (pair.apart, pair.live') refl;
      } in
      let (g', ran, holds, same, freed, chain, cursor) =
        change_net_type-login b run later table l.allocated l.now t q d l.bufs vs s₁.gateway only
          second refl new old quotable short six six' in
      let changed =
        handle_chg_cmd-plain b rows run later tools r l q d more s₁ g' pair.net only.live ran
          plain in
      let next = get_next_cmd-last (record { con = pair.con'; lcmd = none }) g'.bus chain cursor in
      let end : State = record s {
        gateway = record g' { bus = record g'.bus { cursor = none } };
      } in
      let is_chg : str_eq d.cmd (codes "chg") ≡ true =
        ap (λ x. str_eq x (codes "chg")) pair.chg ∙ str_eq_refl (codes "chg") in
      let round : login_rounds b rows run later tools r 1 l (some q) s₁ ≡ done end =
        rw (only.live, is_chg, changed, next, login_rounds) refl in
      let start : handle_login_cmd b rows run later tools r l p s
          ≡ login_rounds b rows run later tools r 1 l (some q) s₁ =
        rw (first, handle_login_cmd) refl in
      (end, start ∙ round, holds, same, freed)

  -- Where a login stands before the second run of the network command, the handler saves the new
  -- settings over a table whose names are unique: each setting in use gets the value of its new
  -- setting, no command line is run, and the network command is freed; jsmn reads the payload as an
  -- object with the name `net_type` and no string behind it, the six values have no quotes and fit
  -- their buffers, and the settings in use have rows.
  pub lbus_handler-login :
      (is_due : Time → Time → Bool) (table : IsTable b) (l : Locals Time) (t : Time) (p q : Ptr)
      (c d : Cmd Time) (more : List Token) (vs : List Bytes) (s : State)
      → s.current ≡ none
      → c.tmnexthandle ≡ none
      → IsLogin r p q c d more s.gateway.bus
      → All (λ k. k.is_string ≡ false) more
      → d.tmnexthandle ≡ some t
      → Holds b table vs new_names s.gateway.db
      → HaveRows b table std_names s.gateway.db
      → All (IsQuotable b table) vs
      → All (λ v. length v < buf_len) vs
      → length l.bufs ≡ 6
      → length vs ≡ 6
      → (s' : State) × (lbus_handler b rows run later tools r is_due l s ≡ done s')
        × Holds b table vs std_names s'.gateway.db
        × (s'.gateway.world ≡ s.gateway.world)
        × (s'.gateway.bus.cmds q ≡ none)
  lbus_handler-login is_due table l t p q c d more vs s start due pair plain second new old quotable
        short six six' =
      let n : Node = record { con = pair.con; lcmd = some p } in
      let n' : Node = record { con = pair.con'; lcmd = some q } in
      let s₁ = taken (some p) n s in
      let pair₁ : IsLogin r p q c d more s₁.gateway.bus = record {
        con = pair.con;
        con' = pair.con';
        chain = pair.chain;
        live = pair.live;
        live' = pair.live';
        apart = pair.apart;
        login = pair.login;
        chg = pair.chg;
        net = pair.net;
      } in
      let (s', ran, holds, same, freed) =
        handle_login_cmd-net table l t p q c d more vs s₁ pair₁ plain second new old quotable short
          six six' in
      let begun =
        lbus_handler-first is_due l p c n (n' ∷ []) s start pair.chain refl pair.live due in
      (s', begun ∙ dispatch-login l p c s₁ pair.login ∙ ran, holds, same, freed)
