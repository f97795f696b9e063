-- ===== src/Tests/Ipchanger.antt =====
-- Commands of ipchanger on an interfaces file.
use lielas.Base.{◌≡◌, refl, true, false, none, [], ◌∷◌, codes, arith, done}
use lielas.Ipchanger.Settings.{Exit, success, failure}
use lielas.Ipchanger.Settings.Reading.{IsLine}
use lielas.Ipchanger.Commands.{Files, Host, main}
use lielas.Ipchanger.Commands.Rollback.{
  dhcp, static, arguments, restore-set, set_static-unread, set_dhcp-get,
}

abbrev old_files : Files
old_files = record { interfaces = codes "auto lo\n"; backup = none; resolv = []; eth0_up = true }

abbrev good_host : Host
good_host = record {
  copy_ok = true;
  open_ok = true;
  read_ok = true;
  ifdown_ok = true;
  ifup_ok = true;
}

-- Starting eth0 fails.
abbrev bad_host : Host
bad_host = record {
  copy_ok = true;
  open_ok = true;
  read_ok = true;
  ifdown_ok = true;
  ifup_ok = false;
}

address-IsLine : IsLine (codes "10.0.0.2")
address-IsLine = record { no_newline = ground arith; no_zero = ground arith; short = omega arith }

mask-IsLine : IsLine (codes "255.0.0.0")
mask-IsLine = record { no_newline = ground arith; no_zero = ground arith; short = omega arith }

restore-set_example :
    (e e' : Exit) × (f₁ f₂ : Files) × (main bad_host (codes "set" ∷ codes "dhcp" ∷ []) old_files
      ≡ done ([], e, f₁))
    × (main good_host (codes "restore" ∷ []) f₁ ≡ done ([], e', f₂))
    × (f₂.interfaces ≡ codes "auto lo\n")
    × (f₂.resolv ≡ [])
restore-set_example = restore-set dhcp bad_host good_host old_files refl refl

set_static-unread_example :
    (e : Exit) × (f' : Files) × (main good_host
        (arguments (static (codes "10.0.0.2") (codes "255.0.0.0") (codes "10.0.0.1")))
        old_files
      ≡ done ([], e, f'))
    × (main good_host (codes "get" ∷ []) f' ≡ done (codes "static" ∷ [], failure, f'))
set_static-unread_example =
    set_static-unread good_host good_host old_files (codes "10.0.0.2") (codes "255.0.0.0")
      (codes "10.0.0.1") refl refl address-IsLine mask-IsLine (ground arith)

set_dhcp-get_example :
    (e : Exit) × (f' : Files) × (main bad_host (codes "set" ∷ codes "dhcp" ∷ []) old_files
      ≡ done ([], e, f'))
    × (main good_host (codes "get" ∷ []) f' ≡ done (codes "dhcp" ∷ [], success, f'))
set_dhcp-get_example = set_dhcp-get bad_host good_host old_files refl refl refl
