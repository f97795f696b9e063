-- ===== src/Ipchanger/Commands/Rollback.antt =====
-- Sequences of commands: a change and its restoring, a change and reading it back.
use lielas.Base.{
  ◌≡◌, refl, ◌≢◌, inl, inr, Bool-cases, Bool, true, false, none, some, List, [], ◌∷◌, ◌++◌, Bytes,
  if◌then◌else◌, codes, arith, All, done, find_str, starts_with,
}
use lielas.Ipchanger.Settings.{
  Exit, success, failure, get_settings, read_lines, line_text, line_texts, file_lines, read_type,
  read_static, read_values, search_interface,
}
use lielas.Ipchanger.Settings.Reading.{IsLine, file_lines-line, file_lines-head}
use lielas.Ipchanger.Commands.{
  Files, Host, save_backup, restore_backup, restart_net_interface, dhcp_text, static_text,
  write_interfaces, set_dhcp, set_static, restore, run_set, main, inet6,
}

-- A change of the interfaces file, and its arguments.
pub data Change : Type 0 where
  dhcp : Change
  static : (adr mask gw : Bytes) → Change

abbrev pub arguments : Change → List Bytes
arguments dhcp = codes "set" ∷ codes "dhcp" ∷ []
arguments (static adr mask gw) = codes "set" ∷ codes "static" ∷ adr ∷ mask ∷ gw ∷ []

abbrev change_text : Change → Bytes
change_text dhcp = dhcp_text
change_text (static adr mask gw) = static_text adr mask gw

-- Restarting eth0 ends the program, and changes no file.
restart-files :
    (h : Host) (f : Files)
    → (e : Exit) × (up : Bool) × (restart_net_interface h f
        ≡ done ([], e, record f { eth0_up = up }))
unfolding restart_net_interface
restart-files h f = elim (Bool-cases h.ifdown_ok) [
  | inr d ↦ (failure, f.eth0_up, ground arith)
  | inl d ↦ elim (Bool-cases h.ifup_ok) [
    | inl u ↦ (success, true, ground arith)
    | inr u ↦ (failure, false, ground arith)
  ]
]

arguments-change :
    (c : Change) (h : Host) (f : Files)
    → main h (arguments c) f ≡ (
        let (bad, f') = write_interfaces h (change_text c) f in
        if bad then done ([], failure, f') else restart_net_interface h f')
unfolding main run_set set_dhcp set_static starts_with
arguments-change dhcp h f = refl
arguments-change (static adr mask gw) h f = refl

-- A change leaves the former text in the backup.
set-backup :
    (c : Change) (h : Host) (f : Files)
    → h.copy_ok ≡ true
    → (e : Exit) × (f' : Files) × (main h (arguments c) f ≡ done ([], e, f'))
      × (f'.backup ≡ some f.interfaces)
      × (f'.resolv ≡ f.resolv)
unfolding write_interfaces save_backup
set-backup c h f copied =
    let saved : Files = record f { backup = some f.interfaces } in
    let written : Files = record saved { interfaces = change_text c } in
    let runs = arguments-change c h f in
    let (e, up, restarted) = restart-files h written in
    elim (Bool-cases h.open_ok) [
      | inl opened ↦
          (e, record written { eth0_up = up }, ground (arith, runs, restarted), refl, refl)
      | inr closed ↦ (failure, saved, ground (arith, runs), refl, refl)
    ]

-- Where both copies succeed, `restore` after `set dhcp` or `set static` gives the interfaces file
-- its former text, also if the change failed to write the file or to restart eth0; resolv.conf is
-- as before.
pub restore-set :
    (c : Change) (h h' : Host) (f : Files)
    → h.copy_ok ≡ true
    → h'.copy_ok ≡ true
    → (e e' : Exit) × (f₁ f₂ : Files) × (main h (arguments c) f ≡ done ([], e, f₁))
      × (main h' (codes "restore" ∷ []) f₁ ≡ done ([], e', f₂))
      × (f₂.interfaces ≡ f.interfaces)
      × (f₂.resolv ≡ f.resolv)
unfolding main restore_backup restore starts_with
restore-set c h h' f copied copied' =
    let (e, f', set, backup, kept) = set-backup c h f copied in
    let (e', up, restarted) = restart-files h' (record f' { interfaces = f.interfaces }) in
    (
      e,
      e',
      f',
      record f' { interfaces = f.interfaces; eth0_up = up },
      set,
      ground (arith, restarted),
      refl,
      kept,
    )

-- A line without the byte `d` does not contain the key.
find_str-address : (l : Bytes) → All (λ c. c ≢ b'd') l → find_str (codes "address") l ≡ none
unfolding find_str starts_with
find_str-address [] h = refl
find_str-address (c ∷ []) h = ground arith
find_str-address (c ∷ d ∷ l) h = ground (arith, find_str-address (d ∷ l) h.1, h.1.0)

mask-without : (mask : Bytes) → All (λ c. c ≢ b'd') mask → All (λ c. c ≢ b'd') (mask ++ b'\n' ∷ [])
mask-without [] h = (ground arith, ground arith)
mask-without (c ∷ mask) h = (h.0, mask-without mask h.1)

-- The settings that `set static` writes cannot be read back: where the copy and the opening
-- succeed, `get` fails: if it can open the file it prints the type and finds no address in the line
-- of the netmask, and else it prints nothing; address and netmask are lines of at most 480 bytes,
-- and the netmask has no byte `d`.
pub set_static-unread :
    (h h' : Host) (f : Files) (adr mask gw : Bytes)
    → h.copy_ok ≡ true
    → h.open_ok ≡ true
    → IsLine adr
    → IsLine mask
    → All (λ c. c ≢ b'd') mask
    → (e : Exit) × (f' : Files) × (main h (arguments (static adr mask gw)) f ≡ done ([], e, f'))
      × (main h' (codes "get" ∷ []) f'
          ≡ done ((if h'.read_ok then codes "static" ∷ [] else []), failure, f'))
unfolding main write_interfaces save_backup get_settings search_interface read_type read_static
    read_values find_str starts_with
set_static-unread h h' f adr mask gw copied opened ha hm none_d =
    let saved : Files = record f { backup = some f.interfaces } in
    let written : Files = record saved { interfaces = static_text adr mask gw } in
    let runs = arguments-change (static adr mask gw) h f in
    let (e, up, restarted) = restart-files h written in
    let tail₂ : Bytes = codes "  gateway " ++ (gw ++ b'\n' ∷ inet6) in
    let tail₁ : Bytes = codes "  netmask " ++ (mask ++ b'\n' ∷ tail₂) in
    let head = file_lines-head (codes "  address " ++ (adr ++ b'\n' ∷ tail₁)) in
    let line₁ =
      file_lines-line (codes "  address ") adr tail₁ (ground arith) (ground arith) (omega arith)
        ha in
    let line₂ =
      file_lines-line (codes "  netmask ") mask tail₂ (ground arith) (ground arith) (omega arith)
        hm in
    let missing = find_str-address (mask ++ b'\n' ∷ []) (mask-without mask none_d) in
    (
      e,
      record written { eth0_up = up },
      ground (arith, runs, restarted),
      elim (Bool-cases h'.read_ok) [
        | inl opens ↦ rw (opens, head, line₁, line₂, missing, read_values, find_str) refl
        | inr closed ↦ rw closed refl
      ],
    )

-- Where the copy and the openings succeed, `get` after `set dhcp` prints `dhcp` and succeeds.
pub set_dhcp-get :
    (h h' : Host) (f : Files)
    → h.copy_ok ≡ true
    → h.open_ok ≡ true
    → h'.read_ok ≡ true
    → (e : Exit) × (f' : Files) × (main h (arguments dhcp) f ≡ done ([], e, f'))
      × (main h' (codes "get" ∷ []) f' ≡ done (codes "dhcp" ∷ [], success, f'))
unfolding main write_interfaces save_backup get_settings file_lines read_lines line_texts line_text
    search_interface read_type find_str starts_with
set_dhcp-get h h' f copied opened readable =
    let saved : Files = record f { backup = some f.interfaces } in
    let written : Files = record saved { interfaces = dhcp_text } in
    let runs = arguments-change dhcp h f in
    let (e, up, restarted) = restart-files h written in
    (e, record written { eth0_up = up }, ground (arith, runs, restarted), rw readable refl)
