-- ===== src/Lbus/Net/Relogin.antt =====
-- What the two runs of the command that changes the network settings do.
use lielas.Base.{
  ℕ, ◌<◌, ◌≡◌, ◌∙◌, refl, Bool, true, false, none, some, List, [], ◌∷◌, ◌++◌, Bytes, arith, All,
  length, str_eq, ==_iff, codes, done,
}
use lielas.Lbus.Queue.{
  Ptr, Cmd, Bus, store, save_cmd, search_id, unlink, delete_cmd, remove, set_cmd_handled,
}
use lielas.Lbus.Settings.{Database, buf_len}
use lielas.Lbus.Settings.Table.{
  IsTable, AreDistinct, Holds, HaveRows, IsQuotable, get_settings_all-Holds, set_settings_all-Holds,
  load_settings-Holds,
}
use lielas.Lbus.Net.{
  new_names, std_names, relogin_time, ipchanger, Gateway, execute, finish, set_next_handle,
  wait_for_login, apply_settings, first_run, save_settings, second_run, change_net_type,
}

-- The only command of the bus, at its address.
pub record IsOnly {Time : Type 0} (p : Ptr) (c : Cmd Time) (s : Bus Time) : Type 0 where
  pub con : Ptr
  pub chain : s.chain ≡ record { con = con; lcmd = some p } ∷ []
  pub live : s.cmds p ≡ some c

-- The only command is saved as handled and freed, and leaves its container behind.
pub set_cmd_handled-only :
    {Time : Type 0} (now : Time) (p : Ptr) (c : Cmd Time) (s : Bus Time)
    → (only : IsOnly p c s)
    → (s' : Bus Time) × (set_cmd_handled now p s ≡ done s')
      × (s'.net_type_changed ≡ s.net_type_changed)
      × (s'.cmds p ≡ none)
      × (s'.saved ≡ s.saved ++ (record c { handled = true; tmhandled = some now } ∷ []))
      × (s'.chain ≡ record { con = only.con; lcmd = none } ∷ [])
      × (s'.cursor ≡ s.cursor)
unfolding set_cmd_handled remove search_id unlink delete_cmd store save_cmd
set_cmd_handled-only now p c s only =
    let same = (==_iff p p).1 refl in
    let same_id = (==_iff c.id c.id).1 refl in
    let c' : Cmd _ = record c { handled = true; tmhandled = some now } in
    let s₁ = store p none (save_cmd c' (store p (some c') s)) in
    (
      record s₁ { chain = record { con = only.con; lcmd = none } ∷ [] },
      ground (arith, same, same_id, only.chain, only.live),
      refl,
      ground (arith, same),
      refl,
      refl,
      refl,
    )

abbrev pub static_values : (adr mask gw dns1 dns2 : Bytes) → List Bytes
static_values adr mask gw dns1 dns2 = codes "static" ∷ adr ∷ mask ∷ gw ∷ dns1 ∷ dns2 ∷ []

std_names-AreDistinct : (b : Database) (table : IsTable b) → AreDistinct b table std_names
unfolding str_eq
std_names-AreDistinct b table = ground arith

module _ (b : Database) {Time W : Type 0} (run : Bytes → W → Bool × W)
    (later : ℕ → Time → Time) where
  abbrev pub State : Type 0
  State = Gateway b Time W

  -- What the second run does after a login, with the bus that it leaves.
  pub change_net_type-login :
      (table : IsTable b) (allocated : Bool) (now t : Time) (p : Ptr) (c : Cmd Time)
      (bufs vs : List Bytes) (g : State)
      → (only : IsOnly p c g.bus) → c.tmnexthandle ≡ some t
      → g.bus.net_type_changed ≡ false
      → Holds b table vs new_names g.db
      → HaveRows b table std_names g.db
      → All (IsQuotable b table) vs
      → All (λ v. length v < buf_len) vs
      → length bufs ≡ 6
      → length vs ≡ 6
      → (g' : State) × (change_net_type b run later allocated now p bufs g ≡ done (false, g'))
        × Holds b table vs std_names g'.db
        × (g'.world ≡ g.world)
        × (g'.bus.cmds p ≡ none)
        × (g'.bus.chain ≡ record { con = only.con; lcmd = none } ∷ [])
        × (g'.bus.cursor ≡ g.bus.cursor)
  unfolding change_net_type second_run finish save_settings
  change_net_type-login table allocated now t p c bufs vs g only second login new rows plain short
        six six' =
      let (s', handled, kept, freed, _, chain, cursor) = set_cmd_handled-only now p c g.bus only in
      let read = get_settings_all-Holds b table vs bufs new_names g.db new six short in
      let (d', wrote, holds, _) =
        set_settings_all-Holds b table vs std_names g.db (std_names-AreDistinct b table) rows plain
          six' in
      (
        record { bus = s'; db = d'; world = g.world },
        ground (arith, handled, kept, only.live, read, wrote),
        holds,
        refl,
        freed,
        chain,
        cursor,
      )

  -- Over a table whose names are unique, the second run of the network command after a login saves
  -- the new settings: the only command of the bus is handled, each setting in use gets the value of
  -- its new setting, no command line is run, and 0 is returned; the six values have no quotes and
  -- fit their buffers, and the settings in use have rows.
  pub change_net_type-saves :
      (table : IsTable b) (allocated : Bool) (now t : Time) (p : Ptr) (c : Cmd Time)
      (bufs vs : List Bytes) (g : State)
      → IsOnly p c g.bus
      → c.tmnexthandle ≡ some t
      → g.bus.net_type_changed ≡ false
      → Holds b table vs new_names g.db
      → HaveRows b table std_names g.db
      → All (IsQuotable b table) vs
      → All (λ v. length v < buf_len) vs
      → length bufs ≡ 6
      → length vs ≡ 6
      → (g' : State) × (change_net_type b run later allocated now p bufs g ≡ done (false, g'))
        × Holds b table vs std_names g'.db
        × (g'.world ≡ g.world)
        × (g'.bus.cmds p ≡ none)
  change_net_type-saves table allocated now t p c bufs vs g only second login new rows plain short
        six six' =
      let (g', ran, holds, same, freed, _, _) =
        change_net_type-login table allocated now t p c bufs vs g only second login new rows plain
          short six six' in
      (g', ran, holds, same, freed)

  -- The second run of the network command without a login takes the settings back: the only command
  -- of the bus is handled, the one command line that is run is that of `ipchanger restore`, the
  -- database stays as it is, and the result is that of the command line.
  pub change_net_type-restores :
      (allocated : Bool) (now t : Time) (p : Ptr) (c : Cmd Time) (bufs : List Bytes) (g : State)
      → IsOnly p c g.bus
      → c.tmnexthandle ≡ some t
      → g.bus.net_type_changed ≡ true
      → let (bad, w) = run (ipchanger (codes "restore" ∷ [])) g.world in
        (g' : State) × (change_net_type b run later allocated now p bufs g ≡ done (bad, g'))
        × (g'.world ≡ w)
        × (g'.db ≡ g.db)
        × (g'.bus.cmds p ≡ none)
  unfolding change_net_type second_run finish execute
  change_net_type-restores allocated now t p c bufs g only second no_login =
      let (s', handled, kept, freed, _, _, _) = set_cmd_handled-only now p c g.bus only in
      let (bad, w) = run (ipchanger (codes "restore" ∷ [])) g.world in
      (
        record { bus = s'; db = g.db; world = w },
        ground (arith, handled, kept, only.live),
        refl,
        refl,
        freed,
      )

  -- The first run of the network command for the type `static`: where the command line for the name
  -- servers and then that for the address succeed, 0 is returned, the command stays with its next
  -- run 600 seconds later, and the bus waits for a login; the six values are in the table and fit
  -- their buffers.
  pub change_net_type-waits :
      (table : IsTable b) (now : Time) (p : Ptr) (c : Cmd Time) (bufs : List Bytes)
      (adr mask gw dns1 dns2 : Bytes) (g : State) (w₁ w₂ : W)
      → g.bus.cmds p ≡ some c
      → c.tmnexthandle ≡ none
      → Holds b table (static_values adr mask gw dns1 dns2) new_names g.db
      → All (λ v. length v < buf_len) (static_values adr mask gw dns1 dns2)
      → length bufs ≡ 6
      → run (ipchanger (codes "set" ∷ codes "dns" ∷ dns1 ∷ dns2 ∷ [])) g.world ≡ (false, w₁)
      → run (ipchanger (codes "set" ∷ codes "static" ∷ adr ∷ mask ∷ gw ∷ [])) w₁ ≡ (false, w₂)
      → (g' : State) × (change_net_type b run later true now p bufs g ≡ done (false, g'))
        × (g'.bus.cmds p ≡ some (record c { tmnexthandle = some (later relogin_time now) }))
        × (g'.bus.net_type_changed ≡ true)
        × (g'.bus.chain ≡ g.bus.chain)
        × (g'.world ≡ w₂)
        × (g'.db ≡ g.db)
  unfolding change_net_type first_run apply_settings execute wait_for_login set_next_handle store
      str_eq
  change_net_type-waits table now p c bufs adr mask gw dns1 dns2 g w₁ w₂ live first new short six
        dns_ok static_ok =
      let vs = static_values adr mask gw dns1 dns2 in
      let read = load_settings-Holds b table vs bufs new_names g.db new six short in
      let c' = record c { tmnexthandle = some (later relogin_time now) } in
      let same = (==_iff p p).1 refl in
      let bus' = record (store p (some c') g.bus) { net_type_changed = true } in
      (
        record { bus = bus'; db = g.db; world = w₂ },
        ground (arith, read, live, first, dns_ok, static_ok, same),
        ground (arith, same),
        refl,
        refl,
        refl,
        refl,
      )

  -- A change of the network that nobody confirms is taken back: the first run of the command, for
  -- the type `static`, runs the command lines for the name servers and for the address and returns
  -- 0, and the next run, with no login between them, runs that of `ipchanger restore`, whose result
  -- it returns, and no other; the settings in use and all others stay in the database as they were,
  -- and the command is freed; it is the only one of the bus, the first two command lines succeed,
  -- the container for the next run can be allocated, and the six values are in the table and fit
  -- their buffers.
  pub change_net_type-undone :
      (table : IsTable b) (allocated : Bool) (now now' : Time) (p : Ptr) (c : Cmd Time)
      (bufs bufs' : List Bytes) (adr mask gw dns1 dns2 : Bytes) (g : State) (w₁ w₂ : W)
      → IsOnly p c g.bus
      → c.tmnexthandle ≡ none
      → Holds b table (static_values adr mask gw dns1 dns2) new_names g.db
      → All (λ v. length v < buf_len) (static_values adr mask gw dns1 dns2)
      → length bufs ≡ 6
      → run (ipchanger (codes "set" ∷ codes "dns" ∷ dns1 ∷ dns2 ∷ [])) g.world ≡ (false, w₁)
      → run (ipchanger (codes "set" ∷ codes "static" ∷ adr ∷ mask ∷ gw ∷ [])) w₁ ≡ (false, w₂)
      → let (bad, w) = run (ipchanger (codes "restore" ∷ [])) w₂ in
        (g₁ : State) × (g₂ : State) × (change_net_type b run later true now p bufs g
          ≡ done (false, g₁))
        × (change_net_type b run later allocated now' p bufs' g₁ ≡ done (bad, g₂))
        × (g₂.world ≡ w)
        × (g₂.db ≡ g.db)
        × (g₂.bus.cmds p ≡ none)
  change_net_type-undone table allocated now now' p c bufs bufs' adr mask gw dns1 dns2 g w₁ w₂ only
        first new short six dns_ok static_ok =
      let (g₁, ran, live, waits, chain, world, db) =
        change_net_type-waits table now p c bufs adr mask gw dns1 dns2 g w₁ w₂ only.live first new
          short six dns_ok static_ok in
      let c' = record c { tmnexthandle = some (later relogin_time now) } in
      let only' : IsOnly p c' g₁.bus = record {
        con = only.con;
        chain = chain ∙ only.chain;
        live = live;
      } in
      let (g₂, ran', world', db', freed) =
        change_net_type-restores allocated now' (later relogin_time now) p c' bufs' g₁ only' refl
          waits in
      (g₁, g₂, ran, rw world at ran', rw world at world', db' ∙ db, freed)
