-- ===== src/Tests/Listing.antt =====
-- Two rows of devices, the first with a module and its channel.
use lielas.Base.{
  ℕ, suc, ◌+◌, ◌≤◌, ◌≡◌, ◌≢◌, refl, none, some, List, [], ◌∷◌, ◌++◌, Bytes, codes, replicate, arith,
  done, fault, out_of_fuel,
}
use lielas.Lwp.Wkc.{Wkc, init_wkc}
use lielas.Lwp.Parse.{parse_wkc}
use lielas.Device.Slots.{Ptr}
use lielas.Device.Deletion.{created}
use lielas.Device.Container.{holds}
use lielas.Device.Container.Lookup.{members}
use lielas.Device.Container.Loading.{Tables, Loads, load_moduls}
use lielas.Device.Container.Loading.Devices.{DeviceRow, listed, Listed, load_devices}
use lielas.Device.Container.Loading.InOrder.{IsLoadable, AreLoaded, load_devices-in_order}
use lielas.Tests.Lwp.{empty_wkc}
use lielas.Tests.Loading.{place, rows, start}

abbrev row : (id address moduls : Bytes) → DeviceRow
row id address moduls = record {
  id = id;
  address = address;
  mac = codes "00:01";
  mint = codes "600";
  pint = codes "2";
  aint = codes "60";
  moduls = moduls;
  wkc = codes "x</info>;title=\"name sw_version\"";
}

abbrev with_modul : Tables Bytes
with_modul = record rows {
  modul = λ id.
      some (record { id = id; address = codes "1"; channels = codes "4"; mint = codes "600" } ∷ []);
}

abbrev first : DeviceRow
first = row (codes "1") (codes "aaaa::1") (codes "3")

abbrev second : DeviceRow
second = row (codes "2") (codes "aaaa::2") []

abbrev described : Wkc
described = elim (parse_wkc 20 first.wkc (init_wkc empty_wkc)) [
  | done (bad, w) ↦ w
  | fault ↦ empty_wkc
  | out_of_fuel ↦ empty_wkc
]

abbrev none_listed : Listed Bytes
none_listed = record { loads = start; devices = λ p. none; ldc = holds 7 [] }

first-IsLoadable : IsLoadable with_modul 20 (λ p. empty_wkc) place first
unfolding lielas.Lwp.Parse.res_name lielas.Lwp.Parse.scan_word lielas.Lwp.Parse.add_word
    lielas.Lwp.Parse.scan_title lielas.Lwp.Parse.title_value lielas.Lwp.Parse.locate
    lielas.Lwp.Parse.parse_link lielas.Lwp.Parse.link_start lielas.Lwp.Parse.parse_loop
    lielas.Lwp.Parse.parse_wkc lielas.Lwp.Wkc.init_resource lielas.Lwp.Wkc.init_wkc
    lielas.Lwp.Wkc.reset_wkc lielas.Lwp.Wkc.get_res_by_name lielas.Lwp.Wkc.no_resource
    lielas.Lwp.Wkc.deref lielas.Lwp.Wkc.assign lielas.Lwp.Wkc.add_attr
    lielas.Device.Slots.write_slot lielas.Device.Slots.add lielas.Device.Deletion.created
    lielas.Device.Container.Loading.end_id lielas.Device.Container.Loading.load_ids
    lielas.Device.Container.Loading.read_channel lielas.Device.Container.Loading.channel_fits
    lielas.Device.Container.Loading.load_channel lielas.Device.Container.Loading.load_channels
    lielas.Device.Container.Loading.modul_fits lielas.Device.Container.Loading.load_modul
    lielas.Device.Container.Loading.load_moduls lielas.Base.str_eq lielas.Base.starts_with
    lielas.Base.find_char lielas.Base.find_str lielas.Device.Container.Loading.Devices.row_fits
first-IsLoadable = record {
  fits = refl;
  wkc = λ p. described;
  parsed = λ p. refl;
  loaded = λ p s. (_, refl, omega arith);
}

second-IsLoadable : IsLoadable with_modul 20 (λ p. empty_wkc) place second
unfolding lielas.Lwp.Parse.res_name lielas.Lwp.Parse.scan_word lielas.Lwp.Parse.add_word
    lielas.Lwp.Parse.scan_title lielas.Lwp.Parse.title_value lielas.Lwp.Parse.locate
    lielas.Lwp.Parse.parse_link lielas.Lwp.Parse.link_start lielas.Lwp.Parse.parse_loop
    lielas.Lwp.Parse.parse_wkc lielas.Lwp.Wkc.init_resource lielas.Lwp.Wkc.init_wkc
    lielas.Lwp.Wkc.reset_wkc lielas.Lwp.Wkc.get_res_by_name lielas.Lwp.Wkc.no_resource
    lielas.Lwp.Wkc.deref lielas.Lwp.Wkc.assign lielas.Lwp.Wkc.add_attr
    lielas.Device.Slots.write_slot lielas.Device.Slots.add lielas.Device.Deletion.created
    lielas.Device.Container.Loading.end_id lielas.Device.Container.Loading.load_ids
    lielas.Device.Container.Loading.read_channel lielas.Device.Container.Loading.channel_fits
    lielas.Device.Container.Loading.load_channel lielas.Device.Container.Loading.load_channels
    lielas.Device.Container.Loading.modul_fits lielas.Device.Container.Loading.load_modul
    lielas.Device.Container.Loading.load_moduls lielas.Base.str_eq lielas.Base.starts_with
    lielas.Base.find_char lielas.Base.find_str lielas.Device.Container.Loading.Devices.row_fits
second-IsLoadable = record {
  fits = refl;
  wkc = λ p. described;
  parsed = λ p. refl;
  loaded = λ p s. (_, refl, omega arith);
}

load_devices-in_order_example :
    (s' : Listed Bytes) × (ps : List Ptr) × (load_devices with_modul 20
        (λ p. empty_wkc)
        (some (first ∷ second ∷ []))
        none_listed
      ≡ done (listed, s'))
    × (members s'.ldc ≡ 7 ∷ [] ++ ps)
    × AreLoaded with_modul 20 (λ p. empty_wkc) place (first ∷ second ∷ []) ps s'.devices
load_devices-in_order_example =
    load_devices-in_order with_modul 20 (λ p. empty_wkc) place (first ∷ second ∷ []) none_listed
      (first-IsLoadable, (second-IsLoadable, tt)) (λ i. refl) (λ i j lt. omega arith) (λ e. cc e)
