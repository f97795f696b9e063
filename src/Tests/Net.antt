-- ===== src/Tests/Net.antt =====
-- A change of the network settings, with a table that is a function and a log of the command lines.
use lielas.Base.{
  ℕ, ◌+◌, ◌≡◌, refl, Bool, true, false, Option, none, some, List, [], ◌∷◌, ◌++◌, Bytes, ◌==◌,
  if◌then◌else◌, arith, str_eq, str_eq_refl, codes, replicate, done,
}
use lielas.Lbus.Queue.{Cmd}
use lielas.Lbus.Settings.{Database}
use lielas.Lbus.Settings.Table.{IsTable, Holds, HaveRows}
use lielas.Lbus.Net.{new_names, std_names, ipchanger, Gateway, change_net_type}
use lielas.Lbus.Net.Relogin.{IsOnly, static_values, change_net_type-saves, change_net_type-undone}

abbrev pub write : Bytes → Bytes → (Bytes → Option Bytes) → Bytes → Option Bytes
write n v d m = if str_eq m n then some v else d m

abbrev pub table_database : Database
table_database = record {
  Db = Bytes → Option Bytes;
  select = λ n d. d n;
  update = λ n v d. some (write n v d);
}

pub table-IsTable : IsTable table_database
table-IsTable = record {
  update_ok = λ n v old d e plain.
      let same = str_eq_refl n in
      (write n v d, refl, ground (arith, same), λ m ne. ground (arith, ne));
}

-- Every setting has the value `a`, but the type is `static`.
abbrev pub all_a : Bytes → Option Bytes
all_a n = if str_eq n (codes "NET_NEW_TYPE") then some (codes "static") else some (codes "a")

abbrev pub values : List Bytes
values = static_values (codes "a") (codes "a") (codes "a") (codes "a") (codes "a")

abbrev pub net_cmd : Option ℕ → Cmd ℕ
net_cmd again = record {
  id = 7;
  tmrecv = 500;
  address = codes "liegw";
  user = codes "u";
  cmd = codes "chg";
  payload = [];
  handled = false;
  tmnexthandle = again;
  tmhandled = none;
}

-- The world is the list of the command lines that were run.
abbrev gateway : Option ℕ → Bool → Gateway table_database ℕ (List Bytes)
gateway again changed = record {
  bus = record {
    chain = record { con = 1; lcmd = some 101 } ∷ [];
    cursor = some 1;
    cmds = λ p. if p == 101 then some (net_cmd again) else none;
    saved = [];
    net_type_changed = changed;
  };
  db = all_a;
  world = [];
}

abbrev pub run : Bytes → List Bytes → Bool × List Bytes
run command lines = (false, lines ++ command ∷ [])

abbrev pub seconds_later : ℕ → ℕ → ℕ
seconds_later n t = t + n

net_cmd-IsOnly :
    (again : Option ℕ) (changed : Bool) → IsOnly 101 (net_cmd again) (gateway again changed).bus
net_cmd-IsOnly again changed = record { con = 1; chain = refl; live = refl }

pub values-Holds : Holds table_database table-IsTable values new_names all_a
unfolding str_eq
values-Holds = ground arith

pub std-HaveRows : HaveRows table_database table-IsTable std_names all_a
unfolding str_eq
std-HaveRows = (
  (codes "a", refl),
  (
    (codes "a", refl),
    ((codes "a", refl), ((codes "a", refl), ((codes "a", refl), ((codes "a", refl), tt)))),
  ),
)

change_net_type-saves_example :
    (g' : Gateway table_database ℕ (List Bytes)) × (change_net_type table_database run seconds_later
        true 1000 101
        (replicate 6 [])
        (gateway (some 900) false)
      ≡ done (false, g'))
    × Holds table_database table-IsTable values std_names g'.db
    × (g'.world ≡ [])
    × (g'.bus.cmds 101 ≡ none)
change_net_type-saves_example =
    change_net_type-saves table_database run seconds_later table-IsTable true 1000 900 101
      (net_cmd (some 900)) (replicate 6 []) values (gateway (some 900) false)
      (net_cmd-IsOnly (some 900) false) refl refl values-Holds std-HaveRows (ground arith)
      (ground arith) refl refl

abbrev dns_line : Bytes
dns_line = ipchanger (codes "set" ∷ codes "dns" ∷ codes "a" ∷ codes "a" ∷ [])

abbrev static_line : Bytes
static_line = ipchanger (codes "set" ∷ codes "static" ∷ codes "a" ∷ codes "a" ∷ codes "a" ∷ [])

change_net_type-undone_example :
    (g₁ : Gateway table_database ℕ (List Bytes)) × (g₂ : Gateway table_database ℕ (List Bytes))
    × (change_net_type table_database run seconds_later true 1000 101
          (replicate 6 [])
          (gateway none false)
        ≡ done (false, g₁))
    × (change_net_type table_database run seconds_later true 1700 101 (replicate 6 []) g₁
        ≡ done (false, g₂))
    × (g₂.world ≡ dns_line ∷ static_line ∷ ipchanger (codes "restore" ∷ []) ∷ [])
    × (g₂.db ≡ all_a)
    × (g₂.bus.cmds 101 ≡ none)
change_net_type-undone_example =
    change_net_type-undone table_database run seconds_later table-IsTable true 1000 1700 101
      (net_cmd none) (replicate 6 []) (replicate 6 []) (codes "a") (codes "a") (codes "a")
      (codes "a") (codes "a") (gateway none false) (dns_line ∷ []) (dns_line ∷ static_line ∷ [])
      (net_cmd-IsOnly none false) refl values-Holds (ground arith) refl refl refl
