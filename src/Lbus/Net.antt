-- ===== src/Lbus/Net.antt =====
-- `changeNetType` of lbus.c, the command that changes the network settings: the first run applies
-- the new settings and waits for a login, the second one saves them or takes them back. `system`
-- and the calendar are parameters.
pub mod Relogin
use lielas.Base.{
  ℕ, Bool, true, false, Option, none, some, List, [], ◌∷◌, Bytes, if◌then◌else◌, str_eq, ◌++◌,
  codes, take, Run, done, fault, ◌>>=◌,
}
use lielas.Lbus.Queue.{Ptr, Cmd, Bus, store, set_cmd_handled}
use lielas.Lbus.Settings.{Database, pairs, load_settings, get_settings_all, set_settings_all}

-- The names of the new settings, in the order in which they are read, and of the settings in use.
abbrev pub new_names : List Bytes
new_names =
    codes "NET_NEW_TYPE"
    ∷ codes "NET_NEW_ADR"
    ∷ codes "NET_NEW_MASK"
    ∷ codes "NET_NEW_GATEWAY"
    ∷ codes "NET_NEW_DNS1"
    ∷ codes "NET_NEW_DNS2"
    ∷ []

abbrev pub std_names : List Bytes
std_names =
    codes "NET_TYPE"
    ∷ codes "NET_ADR"
    ∷ codes "NET_MASK"
    ∷ codes "NET_GATEWAY"
    ∷ codes "NET_DNS1"
    ∷ codes "NET_DNS2"
    ∷ []

-- `LBUS_NET_RELOGIN_TIME`
abbrev pub relogin_time : ℕ
relogin_time = 600

-- Each argument with a blank before it.
abbrev pub blanked : List Bytes → Bytes
blanked [] = []
blanked (a ∷ more) = b' ' ∷ (a ++ blanked more)

-- A command line in the buffer of 200 bytes.
abbrev pub ipchanger : List Bytes → Bytes
ipchanger args = take 199 (codes "sudo /usr/local/lielas/bin/ipchanger" ++ blanked args)

-- The bus, the database and what the commands act on.
pub record Gateway (b : Database) (Time W : Type 0) : Type 0 where
  pub bus : Bus Time
  pub db : b.Db
  pub world : W

-- `run` is `system`, true where its result is not 0; `later n t` is `n` seconds after `t`, as
-- `tm_sec += n` and `mktime` give it.
module _ (b : Database) {Time W : Type 0} (run : Bytes → W → Bool × W)
    (later : ℕ → Time → Time) where
  unfoldable pub execute : Bytes → Gateway b Time W → Bool × Gateway b Time W
  execute command g = let (bad, w) = run command g.world in (bad, record g { world = w })

  unfoldable pub finish : Time → Ptr → Gateway b Time W → Run (Gateway b Time W)
  finish now p g = set_cmd_handled now p g.bus >>= λ bus'. done (record g { bus = bus' })

  -- The command is handled, and -1 returned.
  unfoldable pub give_up : Time → Ptr → Gateway b Time W → Run (Bool × Gateway b Time W)
  give_up now p g = finish now p g >>= λ g'. done (true, g')

  -- `setNextHandle`, where `allocated` is false if `malloc` fails.
  unfoldable pub set_next_handle : Bool → ℕ → Time → Ptr → Bus Time → Run (Bus Time)
  set_next_handle allocated offset now p s = elim (s.cmds p) [
    | none ↦ fault
    | some c ↦
        let set = done (store p (some (record c { tmnexthandle = some (later offset now) })) s) in
        elim c.tmnexthandle [ some _ ↦ set | none ↦ if allocated then set else done s ]
  ]

  -- The command is kept for its second run. The time of that run is then printed to the log, which
  -- reads through the pointer.
  unfoldable pub wait_for_login :
      Bool → Time → Ptr → Gateway b Time W → Run (Bool × Gateway b Time W)
  wait_for_login allocated now p g = set_next_handle allocated relogin_time now p g.bus >>= λ bus'.
      elim (bus'.cmds p) [
        | none ↦ fault
        | some c ↦ elim c.tmnexthandle [
          | none ↦ fault
          | some _ ↦ done (false, record g { bus = record bus' { net_type_changed = true } })
        ]
      ]

  unfoldable pub apply_settings :
      Bool → Time → Ptr → List Bytes → Gateway b Time W → Run (Bool × Gateway b Time W)
  apply_settings allocated now p (net_type ∷ adr ∷ mask ∷ gw ∷ dns1 ∷ dns2 ∷ []) g =
      let (bad_dns, g₁) = execute (ipchanger (codes "set" ∷ codes "dns" ∷ dns1 ∷ dns2 ∷ [])) g in
      let (bad_static, g₂) =
        execute (ipchanger (codes "set" ∷ net_type ∷ adr ∷ mask ∷ gw ∷ [])) g₁ in
      let (bad_dhcp, g₃) = execute (ipchanger (codes "set" ∷ net_type ∷ [])) g in
      if str_eq net_type (codes "static")
      then (if bad_dns
          then give_up now p g₁
          else if bad_static
          then give_up now p g₂
          else wait_for_login allocated now p g₂)
      else if str_eq net_type (codes "dhcp")
      then (if bad_dhcp then give_up now p g₃ else wait_for_login allocated now p g₃)
      else give_up now p g
  apply_settings allocated now p _ g = fault

  -- `bufs` are the strings that the six buffers hold before anything is read into them; a setting
  -- that is not found leaves its buffer as it was.
  unfoldable pub first_run :
      Bool → Time → Ptr → List Bytes → Gateway b Time W → Run (Bool × Gateway b Time W)
  first_run allocated now p bufs g =
      load_settings b (pairs bufs new_names) g.db >>= λ vs. apply_settings allocated now p vs g

  unfoldable pub save_settings : List Bytes → Gateway b Time W → Run (Bool × Gateway b Time W)
  save_settings bufs g = get_settings_all b (pairs bufs new_names) g.db >>= λ (failed, vs).
      if failed
      then done (true, g)
      else let (bad, d) = set_settings_all b vs std_names g.db in done (bad, record g { db = d })

  unfoldable pub second_run :
      Time → Ptr → List Bytes → Gateway b Time W → Run (Bool × Gateway b Time W)
  second_run now p bufs g = finish now p g >>= λ g₁.
      if g₁.bus.net_type_changed
      then done (execute (ipchanger (codes "restore" ∷ [])) g₁)
      else save_settings bufs g₁

  unfoldable pub change_net_type :
      Bool → Time → Ptr → List Bytes → Gateway b Time W → Run (Bool × Gateway b Time W)
  change_net_type allocated now p bufs g = elim (g.bus.cmds p) [
    | none ↦ fault
    | some c ↦ elim c.tmnexthandle [
      | none ↦ first_run allocated now p bufs g
      | some _ ↦ second_run now p bufs g
    ]
  ]
