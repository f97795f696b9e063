-- ===== src/Tests/Load.antt =====
-- Two rows, the first of which names no command.
use lielas.Base.{
  ℕ, ◌+◌, ◌≡◌, refl, true, false, none, some, List, [], ◌∷◌, Bytes, codes, pos, length, done, ◌>>=◌,
}
use lielas.Lbus.Queue.{Cmd, Bus}
use lielas.Lbus.Load.{Row, LbusTable, RowMemory, fits, lbus_load}
use lielas.Lbus.Load.Rows.{AreLoadable, add_commands, delete_empty, lbus_load-add}

abbrev pub row : ℕ → Bytes → Row
row id cmd = record {
  id = pos id;
  tmrecv = codes "2014-01-01 10:00:00";
  user = codes "u";
  address = codes "liegw";
  cmd = cmd;
  payload = codes "{}";
  tmnexthandle = [];
}

abbrev pub two_rows : List Row
two_rows = row 1 [] ∷ row 2 (codes "login") ∷ []

-- The database is the list of the ids that were deleted.
abbrev pub lbus_table : LbusTable
lbus_table = record {
  Db = List ℕ;
  table_exists = λ d. true;
  create_table = λ d. d;
  last_id = λ d. none;
  insert_id = λ i d. d;
  delete_id = λ i d. i ∷ d;
  unhandled = λ d. some two_rows;
}

abbrev memory : ℕ → RowMemory
memory i = record {
  has_cmd = true;
  has_time = true;
  new_cmd = some (100 + i);
  new_con = some (200 + i);
}

abbrev pub fresh : Cmd ℕ
fresh = record {
  id = 0;
  tmrecv = 0;
  address = [];
  user = [];
  cmd = [];
  payload = [];
  handled = false;
  tmnexthandle = none;
  tmhandled = none;
}

abbrev started : Bus ℕ
started = record {
  chain = record { con = 1; lcmd = none } ∷ [];
  cursor = some 1;
  cmds = λ p. none;
  saved = [];
  net_type_changed = true;
}

two_rows-AreLoadable : AreLoadable lbus_table length memory 0 two_rows
unfolding fits
two_rows-AreLoadable = (
  record { id = 0; positive = refl; short = refl; has_cmd = refl; has_time = refl },
  (record { id = 1; positive = refl; short = refl; has_cmd = refl; has_time = refl }, tt),
)

lbus_load-add_example : lbus_load lbus_table length memory fresh started [] ≡ (
    add_commands lbus_table length memory fresh 0 two_rows started >>= λ s'.
    done (false, s', delete_empty lbus_table length two_rows []))
lbus_load-add_example =
    lbus_load-add lbus_table length memory fresh two_rows started [] refl two_rows-AreLoadable
