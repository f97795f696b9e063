-- ===== src/Lwp/Wkc.antt =====
-- lwp.h and the first part of lwp.c: the description of a device's resources.
use lielas.Base.{
  ℕ, ◌+◌, Bool, true, false, Option, none, some, List, [], ◌∷◌, Bytes, leb, if◌then◌else◌, str_eq,
  codes, get_elem?, set, starts_with,
}

abbrev pub max_attributes : ℕ
max_attributes = 10

abbrev pub max_channels : ℕ
max_channels = 20

-- Size of the buffers for the name of a resource and of an attribute.
abbrev pub max_name_len : ℕ
max_name_len = 100

-- `name` is the text before the terminating zero. `attr` has all the slots of the array, those
-- beyond `attributes` with what they last held.
pub record Resource : Type 0 where
  pub name : Bytes
  pub attributes : ℕ
  pub attr : List Bytes

-- `channel` has all slots of the array; the code uses those from 1 to `channels`.
pub record Wkc : Type 0 where
  pub info : Resource
  pub device : Resource
  pub modul : Resource
  pub network : Resource
  pub database : Resource
  pub logger : Resource
  pub channel : List Resource
  pub channels : ℕ

unfoldable pub init_resource : Resource → Resource
init_resource res = record res { name = []; attributes = 0 }

unfoldable pub init_wkc : Wkc → Wkc
init_wkc w = record w {
  info = init_resource w.info;
  device = init_resource w.device;
  modul = init_resource w.modul;
  network = init_resource w.network;
  database = init_resource w.database;
  logger = init_resource w.logger;
  channels = 0;
}

init_all : List Resource → List Resource
init_all [] = []
init_all (r ∷ rs) = init_resource r ∷ init_all rs

-- The reset at the start of `lwp_parse_wkc`, which clears the channels too.
unfoldable pub reset_wkc : Wkc → Wkc
unfolding init_all
reset_wkc w = record (init_wkc w) { channel = init_all w.channel }

-- A pointer to one of the resources of the structure.
pub data ResourceRef : Type 0 where
  info device modul network database logger : ResourceRef
  channel : ℕ → ResourceRef

unfoldable pub get_res_by_name : Bytes → Wkc → Option ResourceRef
get_res_by_name s w =
    if starts_with (codes "channel") s
    then some (ResourceRef.channel (w.channels + 1))
    else if str_eq s (codes "database")
    then some ResourceRef.database
    else if str_eq s (codes "device")
    then some ResourceRef.device
    else if str_eq s (codes "info")
    then some ResourceRef.info
    else if str_eq s (codes "logger")
    then some ResourceRef.logger
    else if str_eq s (codes "modul")
    then some ResourceRef.modul
    else if str_eq s (codes "network")
    then some ResourceRef.network
    else none

unfoldable pub no_resource : Resource
no_resource = record { name = []; attributes = 0; attr = [] }

-- Reading and writing through such a pointer.
unfoldable pub deref : ResourceRef → Wkc → Resource
deref info w = w.info
deref device w = w.device
deref modul w = w.modul
deref network w = w.network
deref database w = w.database
deref logger w = w.logger
deref (channel i) w = elim (get_elem? w.channel i) [ none ↦ no_resource | some r ↦ r ]

unfoldable pub assign : ResourceRef → Resource → Wkc → Wkc
assign info r w = record w { info = r }
assign device r w = record w { device = r }
assign modul r w = record w { modul = r }
assign network r w = record w { network = r }
assign database r w = record w { database = r }
assign logger r w = record w { logger = r }
assign (channel i) r w = record w { channel = set w.channel i r }

-- The Boolean is true where the C function returns -1.
unfoldable pub add_attr : Bytes → Resource → Bool × Resource
add_attr name res = if leb max_attributes (res.attributes + 1) then (true, res) else (
  false,
  record res { attributes = res.attributes + 1; attr = set res.attr res.attributes name },
)
