-- ===== src/Handler/Scan.antt =====
-- The scan of a device in devicehandler.c: `getDeviceData`, `SaveDataPaketContainerToDatabase`,
-- `DeviceSetDatetime`, and the order in which `HandleDevices` calls them. The waits between the
-- calls are left out.
pub mod Steps
pub mod Clock
use lielas.Base.{
  ℕ, suc, ◌+◌, Bool, true, false, not, Option, none, some, List, [], ◌∷◌, ◌++◌, Bytes, ◌==◌,
  if◌then◌else◌, ltb, length, set, codes, texts, take, replicate, ℤ, pos, ltb_ℤ, Run, done, fault,
  ◌>>=◌,
}
use lielas.Tm.{Tm}
use lielas.Device.Slots.{Ptr}
use lielas.Device.Container.{Ldc}
use lielas.Lwp.Wkc.{Wkc}
use lielas.Lwp.Attr.{get_attr_value}
use lielas.Handler.Coap.{Method, get, put, Request, Reply, status_content, Net, send_cmd}
use lielas.Handler.Cycle.{cycle_mode_on, cycle_mode_off, set_cycle_mode}
use lielas.Handler.Logger.{cmd_size, string_of, set_logger_mint}
use lielas.Handler.Records.{Datapaket, parse_records}
use lielas.Handler.Runmode.{Calendar}
use lielas.Handler.Schedule.{Moment, Schedule, next_device}

-- What the statements on the data table say and do. The tests are those of sql.c, true where the
-- C function returns 0. `newest` is the latest time of the column that holds a value, if the
-- statement gives one row.
pub record DataTable : Type 1 where
  pub Db : Type 0
  pub table_exists : Db → Bool
  pub column_exists : (column : Bytes) → Db → Bool
  pub row_exists : (column : Bytes) → Db → Bool
  pub time_exists : (time : Bytes) → Db → Bool
  pub newest : (column : Bytes) → Db → Option Bytes
  pub create_data_tbl : Db → Db
  pub add_column : (column : Bytes) → Db → Db
  pub insert : (column time value : Bytes) → Db → Db
  pub update : (column time value : Bytes) → Db → Db

-- What a scan reads of a device: the module is the first one, and `channel_address` gives that of
-- each of its channels.
pub record Target : Type 0 where
  pub address : Bytes
  pub mac : Bytes
  pub mint : Bytes
  pub channels : ℕ
  pub modul_address : Bytes
  pub channel_address : ℕ → Bytes
  pub wkc : Wkc

-- `GET_FIRST_VALUE_DATE`
abbrev pub first_value_date : Bytes
first_value_date = codes "2000.01.01 00:00:00"

unfoldable pub replace : ℕ → ℕ → Bytes → Bytes
replace old new [] = []
replace old new (c ∷ s) = (if c == old then new else c) ∷ replace old new s

-- The time of the database as the device reads it.
abbrev pub device_time : Bytes → Bytes
device_time s = replace b' ' b'-' (replace b'-' b'.' s)

abbrev pub database_request : Bytes → Bytes → Request
database_request address time = record {
  uri = texts (codes "coap://[" ∷ address ∷ codes "]:5683/database?datetime=" ∷ time ∷ []);
  method = get;
  post = [];
}

abbrev pub device_request : Bytes → Method → Bytes → Request
device_request address method post = record {
  uri = texts (codes "coap://[" ∷ address ∷ codes "]:5683/device" ∷ []);
  method = method;
  post = post;
}

-- `MAX_TIME_DIFF`
abbrev pub max_time_diff : ℕ
max_time_diff = 4

-- `database_time` and `coap_time` are `strftime` with the two formats, `read_time` is `strptime`
-- with the second one, into a `dt` that is not set before, and `difftime` takes the `mktime` of
-- both.
pub record TimeText (Broken : Type 0) : Type 0 where
  pub database_time : Tm → Bytes
  pub coap_time : Broken → Bytes
  pub read_time : Bytes → Broken

-- The network and the database.
pub record Server (t : DataTable) (W : Type 0) : Type 0 where
  pub net : Net W
  pub db : t.Db

module _ (t : DataTable) where
  -- The time from which the values are asked for, and the database after it; `none` where the table
  -- is missing and cannot be made.
  unfoldable pub start_time : Bytes → t.Db → Option (Bytes × t.Db)
  start_time column d =
      let made = t.create_data_tbl d in
      if t.table_exists d
      then (if t.column_exists column d
          then some (
            (elim (t.newest column d) [ none ↦ first_value_date | some time ↦ device_time time ]),
            d,
          )
          else some (first_value_date, d))
      else if t.table_exists made
      then some (first_value_date, made)
      else none

module _ (t : DataTable) {Broken : Type 0} (x : TimeText Broken) where
  -- The value of a column at a time, in the row of the time or in a new one.
  unfoldable pub write_value : (column time value : Bytes) → t.Db → t.Db
  write_value column time value db =
      if t.time_exists time db then t.update column time value db else t.insert column time value db

  -- A packet of the device, of the channel `dp.channel` of its first module.
  unfoldable pub save_packet : Target → Datapaket → t.Db → t.Db
  save_packet d dp db =
      let column =
        texts
          (d.mac ∷ codes "." ∷ d.modul_address ∷ codes "." ∷ d.channel_address dp.channel ∷ []) in
      write_value column (x.database_time dp.dt) dp.value
        (if t.row_exists column db then db else t.add_column column db)

  unfoldable pub save_packets : Target → List Datapaket → t.Db → t.Db
  save_packets d [] db = db
  save_packets d (dp ∷ dps) db = save_packets d dps (save_packet d dp db)

  -- True where -1 is returned.
  unfoldable pub save_data : Target → List Datapaket → t.Db → Bool × t.Db
  save_data d dps db =
      let made = t.create_data_tbl db in
      if t.table_exists db
      then (false, save_packets d dps db)
      else if t.table_exists made
      then (false, save_packets d dps made)
      else (true, made)

module _ (t : DataTable) (c : Calendar) (x : TimeText c.Broken) {W : Type 0}
    (transmit : Request → Reply → W → Reply × W) (mktime : Tm → Tm)
    (print : Target → (cnr raw : ℕ) → Bytes) where
  abbrev State : Type 0
  State = Server t W

  abbrev no_reply : ℕ → Reply
  no_reply size = record { status = 0; len = 0; buf = replicate size 0 }

  -- `allocated` is false where `coap_create_buf` fails. The packets that were made, and true where
  -- -1 is returned.
  unfoldable pub get_device_data :
      (allocated : Bool) → Target → State → Run (Bool × List Datapaket × State)
  get_device_data allocated d s = elim (start_time t (d.mac ++ codes ".1.1") s.db) [
    | none ↦ done (true, [], if allocated then record s { db = t.create_data_tbl s.db } else s)
    | some (time, db') ↦
        let (cb, net') =
          send_cmd transmit (database_request d.address time) (no_reply 20000) s.net in
        let s' : State = record { net = net'; db = db' } in
        let parsed =
          (parse_records mktime (print d) (suc cb.len) d.channels cb.len 0 cb.buf >>= λ (dps, bad).
          done (false, dps, s')) in
        if not allocated
        then done (true, [], s)
        else if cb.status == status_content
        then parsed
        else done (true, [], s')
  ]

  -- `buf` and `recv` are the local buffers, `now` and `now'` the times before and behind the
  -- requests.
  unfoldable pub set_datetime :
      (allocated : Bool) → (buf recv : Bytes) → (now now' : ℕ) → Target → Net W → Run (Bool × Net W)
  set_datetime allocated buf recv now now' d net =
      let text = codes "datetime=" ++ x.coap_time (c.gmtime now) in
      let cb : Reply = record { status = 0; len = 0; buf = buf } in
      let (cb₁, net₁) = send_cmd transmit (device_request d.address put text) cb net in
      let asked = record cb₁ { buf = set cb₁.buf 0 0 } in
      let (cb₂, net₂) = send_cmd transmit (device_request d.address get []) asked net₁ in
      let checked =
        (get_attr_value cb₂.buf d.wkc.device (codes "datetime") recv 64 >>= λ (failed, recv').
        let diff = c.difftime (c.gmtime now') (x.read_time (string_of recv')) in
        done (if failed then true else not (ltb_ℤ diff (pos max_time_diff)), net₂)) in
      if not allocated
      then done (true, net)
      else if cb₂.status == status_content
      then checked
      else done (true, net₂)

  -- What `malloc`, `time` and the stack give to a scan; the Booleans are false where an allocation
  -- fails, and each function has its own local buffers.
  pub record Locals : Type 0 where
    pub has_container : Bool
    pub data_allocated : Bool
    pub time_allocated : Bool
    pub mint_allocated : Bool
    pub off_allocated : Bool
    pub on_allocated : Bool
    pub off_buf : Bytes
    pub time_buf : Bytes
    pub time_recv : Bytes
    pub mint_buf : Bytes
    pub mint_recv : Bytes
    pub on_buf : Bytes
    pub now : ℕ
    pub now' : ℕ

  -- The steps behind the first switch of the cycle mode, whose results are not used.
  unfoldable pub finish_scan : Locals → Target → State → Run State
  finish_scan l d s =
      set_datetime l.time_allocated l.time_buf l.time_recv l.now l.now' d s.net >>= λ (_, net₁).
      set_logger_mint transmit l.mint_allocated l.mint_buf l.mint_recv d.address d.mint d.wkc.logger
        net₁
      >>= λ (_, net₂). done (record s {
        net = (set_cycle_mode transmit l.on_allocated l.on_buf d.address cycle_mode_on net₂).1;
      })

  -- A scan ends at once if the cycle mode cannot be switched off, or if there is no container for
  -- the packets.
  unfoldable pub scan_device : Locals → Target → State → Run State
  scan_device l d s =
      let (failed, net₁) =
        set_cycle_mode transmit l.off_allocated l.off_buf d.address cycle_mode_off s.net in
      let s₁ = record s { net = net₁ } in
      let scanned =
        (get_device_data l.data_allocated d s₁ >>= λ (bad, dps, s₂).
        finish_scan l d (if bad then s₂ else record s₂ { db = (save_data t x d dps s₂.db).1 })) in
      if failed then done s₁ else if l.has_container then scanned else done s₁

  module _ (tm_sec : c.Broken → ℕ) (whole_minute : c.Broken → c.Broken)
      (targets : Ptr → Target) where
    unfoldable pub handle_devices :
        Moment
        → Locals
        → Ldc
        → Schedule c tm_sec whole_minute × State
        → Run (Schedule c tm_sec whole_minute × State)
    handle_devices m l ldc (p, s) = next_device c tm_sec whole_minute m ldc p >>= λ (d, p').
        elim d [
          | none ↦ done (p', s)
          | some e ↦ scan_device l (targets e) s >>= λ s'. done (p', s')
        ]
