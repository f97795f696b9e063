-- ===== src/Tests/Schedule.antt =====
-- Three devices that are scanned in turn, and a scan of one of them.
use lielas.Base.{
  ℕ, ◌+◌, ◌-◌, ◌%◌, ◌≡◌, refl, Bool, true, false, ◌&&◌, ◌||◌, Option, none, some, [], ◌∷◌, ◌++◌,
  Bytes, if◌then◌else◌, arith, str_eq, str_eq_refl, codes, replicate, done, pos, sub_ℕ,
}
use lielas.Tm.{Tm}
use lielas.Device.Container.{holds}
use lielas.Lwp.Wkc.{Resource}
use lielas.Lwp.Attr.Values.{Placed, join}
use lielas.Handler.Coap.{put, get, Reply, status_content}
use lielas.Handler.Logger.Interval.{recorded}
use lielas.Handler.Runmode.{Calendar}
use lielas.Handler.Records.{Datapaket}
use lielas.Handler.Schedule.{Moment, Schedule, starts_scan, in_window, is_early, take_turns}
use lielas.Handler.Schedule.Turns.{AreDue, take_turns-round}
use lielas.Handler.Scan.{DataTable, Target, TimeText, device_request, save_data, set_datetime}
use lielas.Handler.Scan.Steps.{IsTable, latest, save_data-latest}
use lielas.Handler.Scan.Clock.{set_datetime-accepts}

abbrev pub seconds : Calendar
seconds = record {
  Broken = ℕ;
  gmtime = λ t. t;
  later = λ n t. t + n;
  difftime = λ s t. sub_ℕ s t;
  difftime-later = λ s t n. refl;
}

abbrev second_of : ℕ → ℕ
second_of t = t % 60

abbrev minute_of : ℕ → ℕ
minute_of t = t - t % 60

abbrev moment : ℕ → Moment
moment t = record { allocated = true; allocated' = true; now = t; now' = t }

abbrev scanned_102 : Schedule seconds second_of minute_of
scanned_102 = record { next_scan = some 600; last_device = some 102; cursor = none }

moments-AreDue :
    AreDue seconds second_of minute_of (moment 602 ∷ moment 662 ∷ moment 722 ∷ []) (some 600)
unfolding starts_scan in_window is_early
moments-AreDue = (refl, refl, (refl, refl, (refl, refl, tt)))

take_turns-round_example :
    (s' : Schedule seconds second_of minute_of) × (take_turns seconds second_of minute_of
        (moment 602 ∷ moment 662 ∷ moment 722 ∷ [])
        (holds 101 (102 ∷ 103 ∷ []))
        scanned_102
      ≡ done (103 ∷ 101 ∷ 102 ∷ [], s'))
take_turns-round_example =
    take_turns-round seconds second_of minute_of 101 (102 ∷ 103 ∷ []) (101 ∷ []) 102 (103 ∷ [])
      (moment 602 ∷ moment 662 ∷ moment 722 ∷ []) scanned_102 (ground arith) refl refl
      moments-AreDue refl

pub record Table : Type 0 where
  columns : Bytes → Bool
  times : Bytes → Bool
  cells : Bytes → Bytes → Option Bytes

abbrev write_cell : Bytes → Bytes → Bytes → Table → Table
write_cell column time v d = record d {
  times = λ m. str_eq m time || d.times m;
  cells = λ n m. if str_eq n column && str_eq m time then some v else d.cells n m;
}

abbrev pub data_table : DataTable
data_table = record {
  Db = Table;
  table_exists = λ d. true;
  column_exists = λ n d. d.columns n;
  row_exists = λ n d. d.columns n;
  time_exists = λ m d. d.times m;
  newest = λ n d. none;
  create_data_tbl = λ d. d;
  add_column = λ column d. record d { columns = λ n. str_eq n column || d.columns n };
  insert = write_cell;
  update = write_cell;
}

data_table-IsTable : IsTable data_table
data_table-IsTable = record {
  cell = λ n m d. d.cells n m;
  HasColumn = λ n d. d.columns n ≡ true;
  row_exists_ok = λ n d e. e;
  add_column_ok = λ n d. (ground (arith, str_eq_refl n), λ m time. refl);
  insert_ok = λ n m v d has fresh n' m'. refl;
  update_ok = λ n m v d has old n' m'. refl;
}

abbrev pub text_time : TimeText ℕ
text_time = record {
  database_time = λ dt. codes "noon";
  coap_time = λ n. codes "noon";
  read_time = λ v. 5000;
}

abbrev pub no_res : Resource
no_res = record { name = []; attributes = 0; attr = [] }

abbrev device_res : Resource
device_res = record {
  name = codes "device";
  attributes = 1;
  attr = codes "datetime" ∷ replicate 9 [];
}

abbrev target : Target
target = record {
  address = codes "fd00::1";
  mac = codes "01";
  mint = codes "60";
  channels = 1;
  modul_address = codes "1";
  channel_address = λ n. codes "1";
  wkc = record {
    info = no_res;
    device = device_res;
    modul = no_res;
    network = no_res;
    database = no_res;
    logger = no_res;
    channel = [];
    channels = 0;
  };
}

abbrev no_tm : Tm
no_tm = record {
  tm_sec = pos 0;
  tm_min = pos 0;
  tm_hour = pos 0;
  tm_mday = pos 1;
  tm_mon = pos 0;
  tm_year = pos 100;
  tm_wday = pos 0;
  tm_yday = pos 0;
  tm_isdst = pos 0;
}

abbrev packet : Bytes → Datapaket
packet v = record { channel = 1; dt = no_tm; value = v }

abbrev blank : Table
blank = record { columns = λ n. false; times = λ m. false; cells = λ n m. none }

save_data-latest_example :
    let (failed, db') =
      save_data data_table text_time target
        (packet (codes "1,5") ∷ packet (codes "2,5") ∷ [])
        blank in
    (failed ≡ false)
    × ((column time : Bytes)
        → data_table-IsTable.cell column time db'
          ≡ latest data_table text_time target
              (packet (codes "1,5") ∷ packet (codes "2,5") ∷ [])
              column
              time
              (data_table-IsTable.cell column time blank))
save_data-latest_example =
    save_data-latest data_table text_time data_table-IsTable target
      (packet (codes "1,5") ∷ packet (codes "2,5") ∷ []) blank refl

datetime-Placed : Placed device_res (codes "datetime") []
unfolding str_eq
datetime-Placed = record {
  names = [];
  more = replicate 9 [];
  slots = refl;
  counted = omega arith;
  other = tt;
  same_place = refl;
}

abbrev answer : Reply
answer = record { status = status_content; len = 5; buf = codes "noon" ++ 0 ∷ [] }

-- The clock of the device is 4000 seconds ahead.
set_datetime-accepts_example :
    set_datetime data_table seconds text_time
      (recorded answer)
      (λ dt. dt)
      (λ d n raw. [])
      true
      []
      (replicate 500 0)
      1000
      1000
      target
      (record { world = []; retries = 3 })
    ≡ done (
      false,
      record {
        world =
            device_request (codes "fd00::1") put (codes "datetime=noon")
            ∷ device_request (codes "fd00::1") get []
            ∷ [];
        retries = 3;
      },
    )
unfolding join
set_datetime-accepts_example =
    set_datetime-accepts data_table seconds text_time (λ dt. dt) (λ d n raw. []) answer target
      datetime-Placed 2 4000 1000 0 1000 1000 [] (replicate 500 0) (codes "noon") [] [] refl refl tt
      (ground arith) refl (omega arith) (omega arith) refl
