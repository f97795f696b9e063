-- ===== src/Tests/Lbus.antt =====
-- A chain of two commands.
use lielas.Base.{
  ℕ, ◌≡◌, refl, true, false, none, some, [], ◌∷◌, ◌==◌, if◌then◌else◌, done, codes, arith,
}
use lielas.Lbus.Queue.{Cmd, Node, Bus, add}
use lielas.Lbus.Queue.Adding.{add-append}

-- A time is a count of seconds.
abbrev cmd : ℕ → Cmd ℕ
cmd id = record {
  id = id;
  tmrecv = 500;
  address = codes "d";
  user = codes "u";
  cmd = codes "login";
  payload = [];
  handled = false;
  tmnexthandle = none;
  tmhandled = none;
}

abbrev first : Node
first = record { con = 1; lcmd = some 101 }

abbrev second : Node
second = record { con = 2; lcmd = some 102 }

-- The cursor stands on the first command.
abbrev bus : Bus ℕ
bus = record {
  chain = first ∷ second ∷ [];
  cursor = some 1;
  cmds = λ p. if p == 101 then some (cmd 7) else if p == 102 then some (cmd 8) else none;
  saved = [];
  net_type_changed = true;
}

add-append_example :
    (s' : Bus ℕ) × (add (some 103) (some 3) (cmd 9) true bus ≡ done (false, s'))
    × (s'.chain ≡ first ∷ second ∷ record { con = 3; lcmd = some 103 } ∷ [])
    × (s'.cursor ≡ some 3)
    × (s'.cmds 103 ≡ some (cmd 9))
    × (s'.saved ≡ cmd 9 ∷ [])
add-append_example =
    add-append 103 3 first (second ∷ []) (cmd 9) true bus refl ((refl, tt), (tt, tt))
      (λ e. ground arith)
