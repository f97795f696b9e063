-- ===== src/Tests/Put.antt =====
-- A command that is put while another is on the bus.
use lielas.Base.{
  ℕ, ◌≡◌, refl, Bool, true, false, Option, none, some, List, [], ◌∷◌, ◌++◌, Bytes, ◌==◌,
  if◌then◌else◌, codes, length, starts_with, arith, done, ◌>>=◌,
}
use lielas.Json.{Token}
use lielas.Lbus.Queue.{Cmd, Node, Bus}
use lielas.Lbus.Load.{get_new_id}
use lielas.Coapserver.{
  Request, answered, code_content, member_at, size_of, put_cmd, Piece, list_cmds, hnd_put_lbus,
}
use lielas.Coapserver.Put.{IsRequest, read_cmd, put_cmd-adds}
use lielas.Tests.Load.{lbus_table, fresh}

abbrev put_text : Bytes
put_text = codes "{\"address\":\"liegw\",\"user\":\"u\",\"cmd\":\"login\",\"payload\":\"x\"}"

abbrev token : Bool → ℕ → ℕ → Token
token is_string start end = record { is_string = is_string; start = start; end = end }

abbrev parse : Bytes → Option (List Token)
parse s = some (
    token false 0 58
    ∷ token true 2 9
    ∷ token true 12 17
    ∷ token true 20 24
    ∷ token true 27 28
    ∷ token true 31 34
    ∷ token true 37 42
    ∷ token true 45 52
    ∷ token true 55 56
    ∷ [])

put_text-IsRequest :
    IsRequest parse put_text (codes "liegw") (codes "u") (codes "login") (codes "x")
unfolding member_at size_of starts_with
put_text-IsRequest = record {
  object = token false 0 58;
  ka = token true 2 9;
  va = token true 12 17;
  ku = token true 20 24;
  vu = token true 27 28;
  kc = token true 31 34;
  vc = token true 37 42;
  kp = token true 45 52;
  vp = token true 55 56;
  more = [];
  parsed = refl;
  object_kind = refl;
  sets_a = record { kind = refl; named = refl; short = omega arith };
  sets_u = record { kind = refl; named = refl; short = omega arith };
  sets_c = record { kind = refl; named = refl; short = omega arith };
  sets_p = record { kind = refl; named = refl; short = omega arith };
  plain = tt;
  is_a = refl;
  is_u = refl;
  is_c = refl;
  is_p = refl;
  some_a = refl;
  some_u = refl;
  some_c = refl;
}

abbrev request : Request ℕ
request = record {
  text = some put_text;
  allocated = true;
  new_cmd = some 102;
  new_con = some 2;
  fresh = fresh;
  now = 77;
}

abbrev waiting : Node
waiting = record { con = 1; lcmd = some 101 }

abbrev bus : Bus ℕ
bus = record {
  chain = waiting ∷ [];
  cursor = none;
  cmds = λ p. if p == 101 then some fresh else none;
  saved = [];
  net_type_changed = true;
}

put_cmd-adds_example :
    (s' : Bus ℕ) × (put_cmd lbus_table length parse request bus []
      ≡ done (answered code_content, s', (get_new_id lbus_table []).1))
    × (s'.chain ≡ (waiting ∷ []) ++ (record { con = 2; lcmd = some 102 } ∷ []))
    × (s'.cmds 102
        ≡ some (
            read_cmd lbus_table length parse request
              (get_new_id lbus_table []).0
              (codes "liegw")
              (codes "u")
              (codes "login")
              (codes "x")))
    × (s'.saved
        ≡ []
          ++ read_cmd lbus_table length parse request
              (get_new_id lbus_table []).0
              (codes "liegw")
              (codes "u")
              (codes "login")
              (codes "x")
            ∷ [])
    × ((pieces : Cmd ℕ → List Piece)
        → hnd_put_lbus lbus_table length parse pieces request bus [] ≡ (
            list_cmds pieces s' >>= λ (len, s'').
            done (answered code_content, s'', (get_new_id lbus_table []).1)))
unfolding get_new_id
put_cmd-adds_example =
    put_cmd-adds lbus_table length parse request put_text (codes "liegw") (codes "u")
      (codes "login") (codes "x") waiting [] 102 2 bus [] refl put_text-IsRequest refl refl refl
      refl refl (tt, tt) (λ e. cc)
