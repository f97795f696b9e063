-- ===== src/Tests/Bus.antt =====
-- Commands of the bus that are handled: one that is not known, a login with a change of the network
-- settings behind it, and the deletion of a device.
use lielas.Base.{
  ℕ, ◌+◌, ◌≡◌, refl, Bool, true, false, not, ◌&&◌, Option, none, some, List, [], ◌∷◌, ◌++◌, Bytes,
  ◌==◌, if◌then◌else◌, ltb, arith, starts_with, codes, replicate, pos, done, fault,
}
use lielas.Tm.{Tm}
use lielas.Rtc.I2c.{Tools}
use lielas.Rtc.Clock.{Rtc, rtc_state_ok}
use lielas.Device.Container.{holds}
use lielas.Device.Container.Lookup.{members}
use lielas.Lbus.Queue.{Ptr, Cmd, Node}
use lielas.Lbus.Settings.Table.{Holds}
use lielas.Lbus.Net.{std_names, ipchanger}
use lielas.Lbus.Net.Relogin.{IsOnly}
use lielas.Json.{Token}
use lielas.Lbus.Change.{Reader, Rows, Locals, Central, handle_chg_cmd}
use lielas.Lbus.Change.Tokens.{IsNetChange, handle_chg_cmd_freed}
use lielas.Lbus.Handler.{lbus_handler}
use lielas.Lbus.Handler.Login.{IsLogin, lbus_handler-login}
use lielas.Lbus.Settings.{Database}
use lielas.Lbus.Handler.Deleted.{DbRow, is_channel, is_modul, is_device, is_row_of, HasRows}
use lielas.Lbus.Handler.Delete.{IsDelete, lbus_handler-deletes}
use lielas.Tests.Net.{
  table_database, table-IsTable, values, run, seconds_later, all_a, values-Holds, std-HaveRows,
}

abbrev no_tools : Tools
no_tools = record {
  Wire = ℕ;
  i2cset_select = λ nr adr reg w. none;
  i2cset_write = λ nr adr reg v w. none;
  i2cget = λ nr adr w. none;
}

abbrev zero_tm : Tm
zero_tm = record {
  tm_sec = pos 0;
  tm_min = pos 0;
  tm_hour = pos 0;
  tm_mday = pos 1;
  tm_mon = pos 0;
  tm_year = pos 100;
  tm_wday = pos 0;
  tm_yday = pos 0;
  tm_isdst = pos 0;
}

abbrev token : Bool → ℕ → ℕ → Token
token is_string start end = record { is_string = is_string; start = start; end = end }

-- The tokens of an object with one name and a number or a text as its value.
abbrev net_text : Bytes
net_text = codes "{\"net_type\":1}"

abbrev device_text : Bytes
device_text = codes "{\"device\":7}"

abbrev reader : (text_value : Bool) → Reader
reader text_value = record {
  parse = λ s. (false, token false 0 14 ∷ token true 2 10 ∷ token text_value 12 13 ∷ []);
  atoi = λ s. pos 7;
  strptime = λ s. none;
}

abbrev device_reader : Reader
device_reader = record {
  parse = λ s. (false, token false 0 12 ∷ token true 2 8 ∷ token false 10 11 ∷ []);
  atoi = λ s. pos 7;
  strptime = λ s. none;
}

-- The rows are not looked at.
abbrev no_rows : Rows (Bytes → Option Bytes)
no_rows = record {
  mint_of = λ i d. none;
  delete_channel = λ i d. d;
  delete_modul = λ i d. d;
  delete_device = λ i d. d;
}

abbrev locals : Locals ℕ
locals = record {
  allocated = true;
  ldc_allocated = true;
  now = 1000;
  bufs = replicate 6 [];
  stale = replicate 10 0;
  host = record {
    mutex_fails = false;
    ntp_fails = false;
    time_error = false;
    now = zero_tm;
    system = λ t. true;
  };
  rtc_buf = [];
}

abbrev bus_cmd : ℕ → Bytes → Bytes → Option ℕ → Cmd ℕ
bus_cmd id name payload again = record {
  id = id;
  tmrecv = 500;
  address = codes "liegw";
  user = codes "u";
  cmd = name;
  payload = payload;
  handled = false;
  tmnexthandle = again;
  tmhandled = none;
}

abbrev clock : Rtc ℕ
clock = record {
  rtc_state = rtc_state_ok;
  driver = record { i2c = record { i2c_adr = 0; i2c_nr = 0; wire = 0 }; oscfailed = false };
  ran = [];
  held = 0;
}

abbrev central : List Node → (Ptr → Option (Cmd ℕ)) → Bool → Central table_database ℕ (List Bytes) ℕ
central chain cmds changed = record {
  gateway = record {
    bus = record {
      chain = chain;
      cursor = none;
      cmds = cmds;
      saved = [];
      net_type_changed = changed;
    };
    db = all_a;
    world = [];
  };
  ldc = holds 101 (102 ∷ []);
  devices =
      λ p. record { device = record { id = if p == 102 then 7 else 8; address = [] }; moduls = [] };
  rtc = clock;
  current = none;
}

abbrev node : ℕ → Ptr → Node
node con p = record { con = con; lcmd = some p }

abbrev one : Cmd ℕ → Bool → Central table_database ℕ (List Bytes) ℕ
one c = central (node 1 201 ∷ []) (λ p. if p == 201 then some c else none)

one-IsOnly : (c : Cmd ℕ) (changed : Bool) → IsOnly 201 c (one c changed).gateway.bus
one-IsOnly c changed = record { con = 1; chain = refl; live = refl }

abbrev is_due : ℕ → ℕ → Bool
is_due next now = ltb next (1 + now)

abbrev odd_cmd : Cmd ℕ
odd_cmd = bus_cmd 3 (codes "reboot") [] none

abbrev login_cmd : Cmd ℕ
login_cmd = bus_cmd 4 (codes "login") [] none

abbrev chg_cmd : Cmd ℕ
chg_cmd = bus_cmd 5 (codes "chg") net_text (some 900)

abbrev two : Central table_database ℕ (List Bytes) ℕ
two =
    central (node 1 201 ∷ node 2 202 ∷ [])
      (λ p. if p == 201 then some login_cmd else if p == 202 then some chg_cmd else none) true

chg-IsNetChange :
    (text_value : Bool) → IsNetChange (reader text_value) chg_cmd (token text_value 12 13 ∷ [])
unfolding starts_with
chg-IsNetChange text_value = record {
  object = token false 0 14;
  name = token true 2 10;
  liegw = refl;
  parsed = refl;
  object_kind = refl;
  name_kind = refl;
  other = refl;
  named = refl;
}

two-IsLogin :
    IsLogin (reader false) 201 202 login_cmd chg_cmd (token false 12 13 ∷ []) two.gateway.bus
two-IsLogin = record {
  con = 1;
  con' = 2;
  chain = refl;
  live = refl;
  live' = refl;
  apart = refl;
  login = refl;
  chg = refl;
  net = chg-IsNetChange false;
}

lbus_handler-login_example :
    (s' : Central table_database ℕ (List Bytes) ℕ) × (lbus_handler table_database no_rows run
        seconds_later no_tools
        (reader false)
        is_due
        locals
        two
      ≡ done s')
    × Holds table_database table-IsTable values std_names s'.gateway.db
    × (s'.gateway.world ≡ [])
    × (s'.gateway.bus.cmds 202 ≡ none)
lbus_handler-login_example =
    lbus_handler-login table_database no_rows run seconds_later no_tools (reader false) is_due
      table-IsTable locals 900 201 202 login_cmd chg_cmd (token false 12 13 ∷ []) values two refl
      refl two-IsLogin (refl, tt) refl values-Holds std-HaveRows (ground arith) (ground arith) refl
      refl

handle_chg_cmd_freed_example :
    handle_chg_cmd table_database no_rows run seconds_later no_tools
      (reader true)
      locals
      201
      (one chg_cmd true)
    ≡ fault
handle_chg_cmd_freed_example =
    handle_chg_cmd_freed table_database no_rows run seconds_later no_tools (reader true) locals 900
      201 chg_cmd (token true 12 13) [] (one chg_cmd true) (ipchanger (codes "restore" ∷ []) ∷ [])
      (chg-IsNetChange true) refl (one-IsOnly chg_cmd true) refl refl refl

abbrev del_cmd : Cmd ℕ
del_cmd = bus_cmd 6 (codes "del") device_text none

del-IsDelete : IsDelete device_reader (replicate 10 0) 7 del_cmd
unfolding starts_with
del-IsDelete = record {
  object = token false 0 12;
  name = token true 2 8;
  value = token false 10 11;
  more = [];
  del = refl;
  liegw = refl;
  parsed = refl;
  object_kind = refl;
  name_kind = refl;
  named = refl;
  short = omega arith;
  number = refl;
  positive = omega arith;
  plain = tt;
}

-- A database that tells which rows there are.
abbrev row_database : Database
row_database = record { Db = DbRow → Bool; select = λ name d. none; update = λ name v d. some d }

abbrev some_rows : Rows (DbRow → Bool)
some_rows = record {
  mint_of = λ i d. none;
  delete_channel = λ i d x. not (is_channel i x) && d x;
  delete_modul = λ i d x. not (is_modul i x) && d x;
  delete_device = λ i d x. not (is_device i x) && d x;
}

some_rows-HasRows : HasRows some_rows
some_rows-HasRows = record {
  there = λ x d. d x;
  channel_gone = λ j x d. refl;
  modul_gone = λ j x d. refl;
  device_gone = λ j x d. refl;
}

-- The second device has a module with two channels.
abbrev with_rows : Central row_database ℕ (List Bytes) ℕ
with_rows = record {
  gateway = record { bus = (one del_cmd true).gateway.bus; db = λ x. true; world = [] };
  ldc = holds 101 (102 ∷ []);
  devices = λ p. record {
    device = record { id = if p == 102 then 7 else 8; address = [] };
    moduls = record { id = 3; mint = []; channels = 4 ∷ 5 ∷ [] } ∷ [];
  };
  rtc = clock;
  current = none;
}

lbus_handler-deletes_example :
    (s' : Central row_database ℕ (List Bytes) ℕ) × (lbus_handler row_database some_rows run
        seconds_later no_tools device_reader is_due locals with_rows
      ≡ done s')
    × (members s'.ldc ≡ 101 ∷ [])
    × ((x : DbRow) → s'.gateway.db x ≡ (not (is_row_of (with_rows.devices 102) x) && true))
    × (s'.gateway.bus.cmds 201 ≡ none)
    × (s'.gateway.bus.saved ≡ [] ++ (record del_cmd { handled = true; tmhandled = some 1000 } ∷ []))
unfolding some_rows-HasRows
lbus_handler-deletes_example =
    lbus_handler-deletes row_database some_rows run seconds_later no_tools device_reader
      some_rows-HasRows is_due locals 201 del_cmd 102 (101 ∷ []) [] with_rows refl
      (one-IsOnly del_cmd true) refl del-IsDelete refl (refl, tt) (refl, tt)
