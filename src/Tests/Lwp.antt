-- ===== src/Tests/Lwp.antt =====
-- The description of a device, an answer of a device, a packed date and a hardware address.
use lielas.Base.{
  ℕ, ◌+◌, ◌*◌, ◌-◌, ◌≡◌, ◌≢◌, refl, ◌∷◌, ◌++◌, [], codes, replicate, false, arith, done, fault,
  out_of_fuel, some, get_elem?, pos, ◌<◌, str_eq,
}
use lielas.Lwp.Wkc.{
  Resource, Wkc, reset_wkc, max_attributes, deref, assign, init_wkc, init_resource,
}
use lielas.Lwp.Parse.{parse_wkc, scan_title}
use lielas.Lwp.Parse.Title.{
  IsWord, title_text, open_title, with_attrs, scan_title-words, scan_title_endless,
}
use lielas.Lwp.Parse.RoundTrip.{
  device_kind, network_kind, kind_ref, Link, links_text, add_link, add_links, parse_wkc-links_text,
}
use lielas.Lwp.Parse.Lines.{EndsLine}
use lielas.Lwp.Parse.Ends.{parse_wkc-ends}
use lielas.Lwp.Attr.{get_attr_value}
use lielas.Lwp.Attr.Values.{Placed, join, get_attr_value-value, get_attr_value_overflow}
use lielas.Lwp.Format.{compdt_to_tm, mac_to_std_mac}
use lielas.Lwp.Format.Fields.{compdt_to_tm-fields, mac_to_std_mac-digits}

abbrev pub empty_resource : Resource
empty_resource = record { name = []; attributes = 0; attr = replicate 10 [] }

abbrev pub empty_wkc : Wkc
empty_wkc = record {
  info = empty_resource;
  device = empty_resource;
  modul = empty_resource;
  network = empty_resource;
  database = empty_resource;
  logger = empty_resource;
  channel = replicate 20 empty_resource;
  channels = 0;
}

abbrev device_link : Link
device_link = record { kind = device_kind; first = codes "id"; others = codes "mac" ∷ [] }

abbrev network_link : Link
network_link = record { kind = network_kind; first = codes "cycling_mode"; others = [] }

id-IsWord : IsWord (codes "id")
id-IsWord = record { bytes = ground arith; not_empty = refl; short = omega arith }

mac-IsWord : IsWord (codes "mac")
mac-IsWord = record { bytes = ground arith; not_empty = refl; short = omega arith }

cycling_mode-IsWord : IsWord (codes "cycling_mode")
cycling_mode-IsWord = record { bytes = ground arith; not_empty = refl; short = omega arith }

device_room : (deref (kind_ref device_kind) (reset_wkc empty_wkc)).attributes + 2 < max_attributes
unfolding deref kind_ref reset_wkc init_wkc init_resource
device_room = omega arith

network_room :
    (deref (kind_ref network_kind) (add_link (reset_wkc empty_wkc) device_link)).attributes + 1
    < max_attributes
unfolding deref kind_ref reset_wkc init_wkc init_resource add_link assign with_attrs
network_room = omega arith

parse_wkc-links_text_example :
    parse_wkc 5 (b'x' ∷ links_text (device_link ∷ network_link ∷ [])) empty_wkc
    ≡ done (false, add_links (reset_wkc empty_wkc) (device_link ∷ network_link ∷ []))
parse_wkc-links_text_example =
    parse_wkc-links_text 5 b'x' device_link (network_link ∷ []) empty_wkc
      (
        record { word = id-IsWord; words = (mac-IsWord, tt); room = device_room },
        (record { word = cycling_mode-IsWord; words = tt; room = network_room }, tt),
      )
      (omega arith, (omega arith, tt))

scan_title-words_example :
    scan_title 3 empty_resource (title_text (codes "id") (codes "mac" ∷ []) (codes ",</x"))
    ≡ done (false, with_attrs empty_resource (codes "id" ∷ codes "mac" ∷ []), codes ",</x")
scan_title-words_example =
    scan_title-words 3 (codes "id") (codes "mac" ∷ []) empty_resource (codes ",</x") id-IsWord
      (mac-IsWord, tt) (omega arith) (omega arith)

scan_title_endless_example :
    scan_title 1000 empty_resource (open_title (codes "id") (codes "mac" ∷ [])) ≡ out_of_fuel
unfolding open_title
scan_title_endless_example =
    scan_title_endless 17 1000 (codes "id") (codes "mac" ∷ []) empty_resource id-IsWord
      (mac-IsWord, tt) (omega arith) (ground arith)

open_line-EndsLine : EndsLine (codes "</id>;title=\"a\n")
unfolding EndsLine
open_line-EndsLine = ground arith

parse_wkc-ends_example : parse_wkc 20 (b'x' ∷ codes "</id>;title=\"a\n") empty_wkc ≢ out_of_fuel
parse_wkc-ends_example =
    parse_wkc-ends 20 b'x' (codes "</id>;title=\"a\n") empty_wkc open_line-EndsLine (omega arith)

abbrev logger_resource : Resource
logger_resource = record {
  name = codes "logger";
  attributes = 2;
  attr = codes "state" ∷ codes "interval" ∷ replicate 8 [];
}

interval_Placed : Placed logger_resource (codes "interval") (codes "1" ∷ [])
unfolding str_eq
interval_Placed = record {
  names = codes "state" ∷ [];
  more = replicate 8 [];
  slots = refl;
  counted = omega arith;
  other = (refl, tt);
  same_place = refl;
}

get_attr_value-value_example :
    get_attr_value
      (join (codes "1" ∷ []) ++ (codes "60" ++ b'\n' ∷ []))
      logger_resource
      (codes "interval")
      (codes "xxxxxx")
      500
    ≡ done (false, codes "60" ++ 0 ∷ codes "xxx")
get_attr_value-value_example =
    get_attr_value-value interval_Placed (codes "60") [] (codes "xxxxxx") b'\n' 500 (ground arith)
      (ground arith) refl (unfold join in omega arith) (omega arith)

get_attr_value_overflow_example :
    get_attr_value
      (join (codes "1" ∷ []) ++ (codes "3600" ++ []))
      logger_resource
      (codes "interval")
      (codes "xxx")
      3
    ≡ fault
get_attr_value_overflow_example =
    get_attr_value_overflow interval_Placed (codes "3600") [] (codes "xxx") 3 (ground arith)
      (ground arith) (unfold join in omega arith) (omega arith)

-- 13 June 2013, 12:30:15
compdt_to_tm-fields_example : compdt_to_tm 141 53 230 61 ≡ record {
  tm_sec = pos 15;
  tm_min = pos 30;
  tm_hour = pos 12;
  tm_mday = pos 13;
  tm_mon = pos 5;
  tm_year = pos 113;
  tm_wday = pos 0;
  tm_yday = pos 0;
  tm_isdst = pos 0;
}
compdt_to_tm-fields_example =
    compdt_to_tm-fields 13 6 13 12 30 15
      (13 + 64 * (6 + 16 * (13 + 32 * (12 + 32 * (30 + 64 * 15))))) (omega arith) (omega arith)
      (omega arith) (omega arith) (omega arith) (omega arith) refl

abbrev to_upper : ℕ → ℕ
to_upper c = c - 32

mac_to_std_mac-digits_example :
    (get_elem? (mac_to_std_mac to_upper (codes "aabbccddeeffaabb")) 3 ≡ some b'B')
    × (get_elem? (mac_to_std_mac to_upper (codes "aabbccddeeffaabb")) 4 ≡ some b'B')
    × (get_elem? (mac_to_std_mac to_upper (codes "aabbccddeeffaabb")) 5 ≡ some b':')
mac_to_std_mac-digits_example =
    mac_to_std_mac-digits to_upper (codes "aabbccddeeffaabb") 1 b'b' b'b' (omega arith) refl refl
