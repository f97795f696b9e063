-- ===== src/Ipchanger/Commands.antt =====
-- The commands of ipchanger/src/main.c. What the system does on a copy, on opening a file for
-- writing, and on `ifdown` and `ifup` is given by the host.
pub mod Rollback
use lielas.Base.{
  ℕ, Bool, true, false, Option, none, some, List, [], ◌∷◌, ◌++◌, Bytes, if◌then◌else◌, codes,
  starts_with, texts, Run, done, fault, ◌>>=◌,
}
use lielas.Ipchanger.Settings.{Exit, success, failure, get_settings}

-- The interfaces file, its copy, resolv.conf, and whether eth0 is up.
pub record Files : Type 0 where
  pub interfaces : Bytes
  pub backup : Option Bytes
  pub resolv : Bytes
  pub eth0_up : Bool

-- Whether each call succeeds.
pub record Host : Type 0 where
  pub copy_ok : Bool
  pub open_ok : Bool
  pub read_ok : Bool
  pub ifdown_ok : Bool
  pub ifup_ok : Bool

-- What the program prints, its exit code, and the files.
abbrev pub Result : Type 0
Result = List Bytes × Exit × Files

abbrev failed : Files → Run Result
failed f = done ([], failure, f)

-- True where the C function does not return 0.
unfoldable pub save_backup : Host → Files → Bool × Files
save_backup h f = if h.copy_ok then (false, record f { backup = some f.interfaces }) else (true, f)

unfoldable pub restore_backup : Host → Files → Bool × Files
restore_backup h f = elim f.backup [
  | none ↦ (true, f)
  | some old ↦ if h.copy_ok then (false, record f { interfaces = old }) else (true, f)
]

unfoldable pub restart_net_interface : Host → Files → Run Result
restart_net_interface h f =
    if h.ifdown_ok
    then if h.ifup_ok
      then done ([], success, record f { eth0_up = true })
      else failed (record f { eth0_up = false })
    else failed f

abbrev pub loopback : Bytes
loopback = codes "auto lo\niface lo inet loopback\n\nauto eth0\n"

abbrev pub inet6 : Bytes
inet6 = codes "iface eth0 inet6 static\n\t address fd23:557d:21e0:1::1\n\t netmask 64\n\n"

abbrev pub dhcp_text : Bytes
dhcp_text = texts (loopback ∷ codes "iface eth0 inet dhcp\n\n" ∷ inet6 ∷ [])

abbrev pub static_text : (adr mask gw : Bytes) → Bytes
static_text adr mask gw = texts (
    loopback
    ∷ codes "iface eth0 inet static\n"
    ∷ codes "  address "
    ∷ adr
    ∷ codes "\n  netmask "
    ∷ mask
    ∷ codes "\n  gateway "
    ∷ gw
    ∷ codes "\n"
    ∷ inet6
    ∷ [])

-- A backup of the interfaces file is made before it is written.
unfoldable pub write_interfaces : Host → Bytes → Files → Bool × Files
write_interfaces h text f =
    let (bad, f') = save_backup h f in
    if bad
    then (true, f')
    else if h.open_ok
    then (false, record f' { interfaces = text })
    else (true, f')

-- `set_dhcp` and `restart_net_interface`
unfoldable pub set_dhcp : Host → Files → Run Result
set_dhcp h f =
    let (bad, f') = write_interfaces h dhcp_text f in
    if bad then failed f' else restart_net_interface h f'

unfoldable pub set_static : Host → Bytes → Bytes → Bytes → Files → Run Result
set_static h adr mask gw f =
    let (bad, f') = write_interfaces h (static_text adr mask gw) f in
    if bad then failed f' else restart_net_interface h f'

abbrev pub nameserver : Bytes → Bytes
nameserver dns = texts (codes "nameserver " ∷ dns ∷ codes "\n" ∷ [])

unfoldable pub set_dns : Host → Bytes → Option Bytes → Files → Run Result
set_dns h dns1 dns2 f =
    let second : Bytes = elim dns2 [ none ↦ [] | some dns ↦ nameserver dns ] in
    if h.open_ok
    then done ([], success, record f { resolv = nameserver dns1 ++ second })
    else failed f

unfoldable pub restore : Host → Files → Run Result
restore h f =
    let (bad, f') = restore_backup h f in if bad then failed f' else restart_net_interface h f'

-- `ipchanger set`. A missing argument is a null pointer.
unfoldable pub run_set : Host → List Bytes → Files → Run Result
run_set h [] f = fault
run_set h (kind ∷ args) f =
    let static : Run Result = elim args [
      | adr ∷ mask ∷ gw ∷ _ ↦ set_static h adr mask gw f
      | _ ↦ fault
    ] in
    let dns : Run Result = elim args [
      | dns1 ∷ [] ↦ set_dns h dns1 none f
      | dns1 ∷ dns2 ∷ [] ↦ set_dns h dns1 (some dns2) f
      | _ ↦ done ([], success, f)
    ] in
    if starts_with (codes "dhcp") kind
    then set_dhcp h f
    else if starts_with (codes "static") kind
    then static
    else if starts_with (codes "dns") kind
    then dns
    else failed f

-- `main`, on the arguments behind the name of the program. The text of the help is not modelled.
unfoldable pub main : Host → List Bytes → Files → Run Result
main h [] f = done ([], success, f)
main h (command ∷ args) f =
    if starts_with (codes "get") command
    then (get_settings (if h.read_ok then some f.interfaces else none) >>= λ (out, e).
        done (out, e, f))
    else if starts_with (codes "set") command
    then run_set h args f
    else if starts_with (codes "restore") command
    then restore h f
    else done ([], success, f)
