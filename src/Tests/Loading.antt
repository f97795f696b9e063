-- ===== src/Tests/Loading.antt =====
-- The channels of a module in the database.
use lielas.Base.{
  ℕ, ◌+◌, ◌≡◌, refl, Option, none, some, List, [], ◌∷◌, ◌++◌, Bytes, codes, replicate, arith, done,
}
use lielas.Device.Slots.{Ptr}
use lielas.Device.Deletion.{created}
use lielas.Device.Deletion.Leak.{Holds, created-Holds}
use lielas.Device.Container.Loading.{ChannelRow, Tables, Loads, channel_fits, load_channels}
use lielas.Device.Container.Loading.Separated.{behind_semicolons}
use lielas.Device.Container.Loading.Channels.{places, AreRead, load_channels-listed}

abbrev row : Bytes → ChannelRow
row id = record {
  id = id;
  address = codes "1";
  type_text = codes "temperature";
  unit = codes "C";
  exponent = codes "2";
}

abbrev pub place : ℕ → Ptr
place i = 200 + i

abbrev pub left : List (Option Ptr)
left = replicate 19 none

abbrev pub rows : Tables Bytes
rows = record {
  channel = λ id. some (row id ∷ []);
  modul = λ id. none;
  atoi = λ t. 7;
  strtod = λ t. t;
  malloc = λ i. some (place i);
  left = λ p. left;
}

abbrev pub start : Loads Bytes
start = record { channels = λ p. none; moduls = λ p. none; calls = 3; members = created left }

load_channels-listed_example :
    (s' : Loads Bytes) × (load_channels rows
        (codes "4" ++ behind_semicolons (codes "12" ∷ []))
        start
      ≡ done s')
    × Holds ([] ++ places rows row place 3 (codes "4" ∷ codes "12" ∷ [])) s'.members
    × AreRead rows row place 3 (codes "4" ∷ codes "12" ∷ []) s'
unfolding channel_fits
load_channels-listed_example =
    load_channels-listed rows row place (codes "4") (codes "12" ∷ []) [] start
      ((omega arith, omega arith, (refl, tt)), ((omega arith, omega arith, (refl, (refl, tt))), tt))
      ((refl, refl), ((refl, refl), tt)) (λ i. refl) (λ i j lt. omega arith)
      (created-Holds left refl) (omega arith)
