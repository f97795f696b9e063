-- ===== src/Tests/Discovery.antt =====
-- Searches for new devices: one that finds a device, one in a table of known devices, and one whose
-- device does not answer.
use lielas.Base.{
  ℕ, suc, ◌+◌, ◌-◌, ◌≡◌, ◌≢◌, refl, Bool, true, false, not, ◌&&◌, Option, none, some, List, [], ◌∷◌,
  ◌++◌, Bytes, ◌==◌, if◌then◌else◌, arith, str_eq, codes, replicate, length, drop, take, pos, Run,
  done, fault, out_of_fuel, starts_with,
}
use lielas.Lwp.Wkc.{Wkc, Resource}
use lielas.Device.Slots.{Ptr}
use lielas.Device.Deletion.{created}
use lielas.Device.Container.{Device, Ldc, empty, holds, search}
use lielas.Device.Container.Lookup.{members}
use lielas.Handler.Coap.{Request, Reply, status_content, set_retries, send_rounds, send_cmd}
use lielas.Handler.Cycle.{cycle_rounds, set_cycle_mode}
use lielas.Discovery.{Env, SearchState, new_object, ask, ask_content}
use lielas.Discovery.Inquiry.{inquire_wkc, switch_off, inquire}
use lielas.Discovery.Setup.{allocates, new_device}
use lielas.Discovery.Routes.{TableToken, at_end, check_for_new_devices}
use lielas.Discovery.Kept.{new_device-stopped}
use lielas.Discovery.Known.{check_for_new_devices-known}
use lielas.Discovery.Added.{new_device-added}
use lielas.Tests.Rows.{Tables, library, server}
use lielas.Tests.Schedule.{seconds, data_table, text_time}

abbrev room : Resource
room = record { name = []; attributes = 0; attr = replicate 10 [] }

abbrev no_wkc : Wkc
no_wkc = record {
  info = room;
  device = room;
  modul = room;
  network = room;
  database = room;
  logger = room;
  channel = replicate 20 room;
  channels = 0;
}

abbrev buffer : Bytes
buffer = replicate 64 0

-- Numbers have one digit here.
abbrev env : Env Bytes
env = record {
  port = codes "5683";
  strtol = λ t. elim t [ [] ↦ pos 0 | b ∷ bs ↦ pos (b - b'0') ];
  is_zero = λ t. str_eq t (codes "0");
  toupper = λ b. b;
  fuel = 30;
  left_wkc = λ p. no_wkc;
  left_name = λ p. buffer;
  left_sw_ver = λ p. buffer;
  left_supply = λ p. buffer;
  left_unit = λ p. buffer;
  left_type = λ p. buffer;
  left_class = λ p. buffer;
  mac = buffer;
  attr = buffer;
  ex = buffer;
  off_allocated = true;
  on_allocated = true;
  off_buf = [];
  on_buf = [];
  time_allocated = true;
  time_buf = [];
  time_recv = buffer;
  now = 1000;
  now' = 1000;
}

abbrev start : SearchState Bytes ℕ Tables
start = record {
  net = record { world = 0; retries = 3 };
  cb = record { status = 0; len = 0; buf = [] };
  wkc = [];
  adr = replicate 50 0;
  loads = record { channels = λ p. none; moduls = λ p. none; calls = 0; members = created [] };
  db = record { stored = λ t i. none; last = λ t. 0 };
  devices = λ p. record { id = p; address = codes "aaaa::2" };
  ldc = holds 7 [];
}

-- No device answers; the world counts the tries.
abbrev silent : Request → Reply → ℕ → Reply × ℕ
silent r cb n = (cb, n + 1)

-- The table `{"Routes":["aaaa::2 x"]}`, and its tokens.
abbrev file : Bytes
file = codes "{\"Routes\":[\"aaaa::2 x\"]}"

abbrev entry : Bool → Bool → (size start end : ℕ) → TableToken
entry is_string is_array size start end = record {
  token = record { is_string = is_string; start = start; end = end };
  is_array = is_array;
  size = size;
}

abbrev route : TableToken
route = entry true false 0 12 21

abbrev entries : List TableToken
entries = entry false false 2 0 24 ∷ entry true false 0 2 8 ∷ entry false true 1 10 23 ∷ route ∷ []

abbrev parse : Bytes → Option (List TableToken)
parse s = some entries

check_for_new_devices-known_example :
    (adr' : Bytes) × (check_for_new_devices library server env silent data_table seconds text_time
        (λ dt. dt)
        (λ d n raw. [])
        parse
        59
        true
        (some file)
        start
      ≡ done (record start { adr = adr' }))
unfolding starts_with search str_eq at_end
check_for_new_devices-known_example =
    check_for_new_devices-known library server env silent data_table seconds text_time (λ dt. dt)
      (λ d n raw. []) parse 59 file start entries route [] (omega arith) (omega arith) refl
      record {
        object = entry false false 2 0 24;
        title = entry true false 0 2 8;
        array = entry false true 1 10 23;
        entries = refl;
        object_there = refl;
        object_plain = refl;
        title_there = refl;
        title_named = refl;
        array_kind = refl;
        array_size = refl;
      }
      (
        (
          refl,
          λ string. record {
            address = codes "aaaa::2";
            rest = codes "x";
            written = refl;
            plain = (
              (refl, refl),
              (
                (refl, refl),
                ((refl, refl), ((refl, refl), ((refl, refl), ((refl, refl), ((refl, refl), tt))))),
              ),
            );
            fits = omega arith;
            device = 7;
            found = refl;
          },
        ),
        tt,
      )

new_device-stopped_example :
    let s' : SearchState Bytes ℕ Tables = record start {
      net = record { world = 33; retries = 3 };
      loads = record start.loads { calls = 1 };
    } in
    (s'.db ≡ start.db) × (s'.ldc ≡ start.ldc) × (s'.devices ≡ start.devices)
unfolding new_device inquire new_object switch_off set_cycle_mode cycle_rounds set_retries send_cmd
    send_rounds inquire_wkc ask_content ask
new_device-stopped_example =
    new_device-stopped library server env silent data_table seconds text_time (λ dt. dt)
      (λ d n raw. []) (codes "aaaa::1") start
      (record start {
        net = record { world = 33; retries = 3 };
        loads = record start.loads { calls = 1 };
      })
      refl

-- A device with one module and one channel.
abbrev description : Bytes
description =
    codes
      "x</info>;title=\"name sw_version\",</network>;title=\"mac\",</device>;title=\"supply module_cnt\",</modul>;title=\"channel_cnt\",</channel1>;title=\"unit type class exponent\""

-- What the device answers.
abbrev text_of : Bytes → Bytes
text_of resource =
    if starts_with (codes ".well") resource
    then description
    else if starts_with (codes "info") resource
    then codes "node\t1"
    else if starts_with (codes "network") resource
    then codes "0123456789abcdef"
    else if starts_with (codes "device") resource
    then codes "battery\t1"
    else if starts_with (codes "modul") resource
    then codes "1"
    else codes "C\tt\tI16\t2"

abbrev answering : Request → Reply → ℕ → Reply × ℕ
answering r cb n =
    (record { status = status_content; len = 0; buf = text_of (drop 22 r.uri) ++ 0 ∷ [] }, n + 1)

abbrev outcome : Run (Option Ptr × SearchState Bytes ℕ Tables)
outcome =
    new_device library server env answering data_table seconds text_time (λ dt. dt) (λ d n raw. [])
      (codes "aaaa::1") start

abbrev found : SearchState Bytes ℕ Tables
found = elim outcome [ done (p, s) ↦ s | fault ↦ start | out_of_fuel ↦ start ]

allocates_always : (i : ℕ) → allocates library i ≡ true
allocates_always i = refl

outcome_found : outcome ≡ done (some 500, found)
unfolding lielas.Lwp.Parse.res_name lielas.Lwp.Parse.scan_word lielas.Lwp.Parse.add_word
    lielas.Lwp.Parse.scan_title lielas.Lwp.Parse.title_value lielas.Lwp.Parse.locate
    lielas.Lwp.Parse.parse_link lielas.Lwp.Parse.link_start lielas.Lwp.Parse.parse_loop
    lielas.Lwp.Parse.parse_wkc lielas.Lwp.Wkc.init_resource lielas.Lwp.Wkc.init_wkc
    lielas.Lwp.Wkc.reset_wkc lielas.Lwp.Wkc.get_res_by_name lielas.Lwp.Wkc.no_resource
    lielas.Lwp.Wkc.deref lielas.Lwp.Wkc.assign lielas.Lwp.Wkc.add_attr lielas.Lwp.Attr.find_rank
    lielas.Lwp.Attr.skip_values lielas.Lwp.Attr.copy_value lielas.Lwp.Attr.finish_value
    lielas.Lwp.Attr.get_attr_value lielas.Lwp.Format.upper_at lielas.Lwp.Format.mac_to_std_mac
    lielas.Handler.Coap.set_retries lielas.Handler.Coap.send_rounds lielas.Handler.Coap.send_cmd
    lielas.Handler.Cycle.cycle_request lielas.Handler.Cycle.cycle_rounds
    lielas.Handler.Cycle.set_cycle_mode lielas.Handler.Logger.string_of
    lielas.Handler.Scan.set_datetime lielas.Discovery.new_object lielas.Discovery.ask
    lielas.Discovery.ask_content lielas.Discovery.read_value lielas.Discovery.Inquiry.rounds_of
    lielas.Discovery.Inquiry.read_attributes lielas.Discovery.Inquiry.inquire_channel
    lielas.Discovery.Inquiry.inquire_channels lielas.Discovery.Inquiry.inquire_count
    lielas.Discovery.Inquiry.inquire_moduls lielas.Discovery.Inquiry.inquire_wkc
    lielas.Discovery.Inquiry.inquire_device lielas.Discovery.Inquiry.inquire_info
    lielas.Discovery.Inquiry.inquire_mac lielas.Discovery.Inquiry.switch_off
    lielas.Discovery.Inquiry.inquire lielas.Discovery.Setup.add_device
    lielas.Discovery.Setup.save_device lielas.Discovery.Setup.set_up lielas.Discovery.Setup.register
    lielas.Discovery.Setup.new_device lielas.Device.Slots.write_slot lielas.Device.Slots.add
    lielas.Device.Deletion.created lielas.Device.Container.add lielas.Device.Container.Saving.new_id
    lielas.Device.Container.Saving.device_fits lielas.Device.Container.Saving.load_device_row
    lielas.Device.Container.Saving.load_device_by_id lielas.Device.Container.Saving.save_wkc
    lielas.Device.Container.Saving.save_new_device lielas.Device.Container.Saving.save_changes
    lielas.Device.Container.Saving.Updated.extended lielas.Device.Container.Saving.Updated.append_id
    lielas.Device.Container.Saving.Updated.save_member
    lielas.Device.Container.Saving.Updated.save_channel
    lielas.Device.Container.Saving.Updated.save_channels
    lielas.Device.Container.Saving.Updated.save_modul_row
    lielas.Device.Container.Saving.Updated.save_modul
    lielas.Device.Container.Saving.Updated.save_moduls
    lielas.Device.Container.Saving.Updated.save_parts
    lielas.Device.Container.Saving.Updated.save_loaded
    lielas.Device.Container.Saving.Updated.ensure_saved
    lielas.Device.Container.Saving.Updated.load_and_save lielas.Device.Container.Loading.end_id
    lielas.Device.Container.Loading.load_ids lielas.Device.Container.Loading.read_channel
    lielas.Device.Container.Loading.channel_fits lielas.Device.Container.Loading.load_channel
    lielas.Device.Container.Loading.load_channels lielas.Device.Container.Loading.modul_fits
    lielas.Device.Container.Loading.load_modul lielas.Device.Container.Loading.load_moduls
    lielas.Base.str_eq lielas.Base.starts_with lielas.Base.find_char lielas.Base.find_str
    lielas.Device.Container.Saving.Rows.row_of lielas.Tests.Rows.decimal lielas.Tests.Rows.read_from
outcome_found = refl

new_device-added_example :
    (members found.ldc ≡ members start.ldc ++ 500 ∷ [])
    × ((found.devices 500).address ≡ codes "aaaa::1")
    × ((q : Ptr) × (search
            (λ p. str_eq (found.devices p).address (codes "aaaa::1"))
            (members found.ldc)
          ≡ some q))
new_device-added_example =
    new_device-added library server env answering data_table seconds text_time (λ dt. dt)
      (λ d n raw. []) (codes "aaaa::1") start found 500 (λ e. cc e) allocates_always outcome_found
