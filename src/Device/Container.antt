-- ===== src/Device/Container.antt =====
-- The list of devices of liegw/src/lielas/devicecontainer.c: `LDCinit`, `LDCadd`, `LDCremove` and
-- the two searches. The doubly linked containers are modelled by their devices in their order here,
-- and with their pointers in Device/Container/Links; the cursor is in Device/Container/Cursor.
pub mod Lookup
pub mod Removing
pub mod Links
pub mod Cursor
pub mod Loading
pub mod Saving
use lielas.Base.{
  ℕ, Bool, true, false, Option, none, some, List, [], ◌∷◌, ◌++◌, Bytes, ◌==◌, if◌then◌else◌, str_eq,
}
use lielas.Device.Slots.{Ptr}

-- What the searches read of a device.
pub record Device : Type 0 where
  pub id : ℕ
  pub address : Bytes

-- `deviceContainer` is a null pointer, or a container without a device as `LDCinit` makes it, or
-- the first of the containers of some devices.
pub data Ldc : Type 0 where
  missing empty : Ldc
  holds : Ptr → List Ptr → Ldc

-- `allocated` is false where `malloc` fails. True where the C function returns -1.
unfoldable pub init : (allocated : Bool) → Ldc → Bool × Ldc
init allocated s = if allocated then (false, empty) else (true, missing)

unfoldable pub add : (allocated : Bool) → Ptr → Ldc → Bool × Ldc
add allocated d missing = (true, missing)
add allocated d empty = (false, holds d [])
add allocated d (holds f rest) =
    if allocated then (false, holds f (rest ++ d ∷ [])) else (true, holds f rest)

-- 0, -1 and `LDC_DEVICE_NOT_FOUND`.
pub data Removal : Type 0 where
  removed uninitialized not_found : Removal

-- The list without the first occurrence of the device.
unfoldable pub delete : Ptr → List Ptr → Option (List Ptr)
delete d [] = none
delete d (x ∷ xs) =
    let later = delete d xs in
    if x == d then some xs else elim later [ none ↦ none | some ys ↦ some (x ∷ ys) ]

-- After the first device is removed `deviceContainer` is the next container, or a null pointer.
unfoldable pub from_next : List Ptr → Ldc
from_next [] = missing
from_next (x ∷ xs) = holds x xs

unfoldable pub remove : Ptr → Ldc → Removal × Ldc
remove d missing = (uninitialized, missing)
remove d empty = (not_found, empty)
remove d (holds f rest) = if f == d then (removed, from_next rest) else elim (delete d rest) [
  | none ↦ (not_found, holds f rest)
  | some rest' ↦ (removed, holds f rest')
]

unfoldable pub search : (Ptr → Bool) → List Ptr → Option Ptr
search test [] = none
search test (x ∷ xs) = let later = search test xs in if test x then some x else later

-- True where -1 is returned, and the device that is found, a null pointer if there is none.
unfoldable pub get_device : (allocated : Bool) → (Ptr → Bool) → Ldc → Bool × Option Ptr × Ldc
get_device allocated test missing = let (failed, s) = init allocated missing in (failed, none, s)
get_device allocated test empty = (false, none, empty)
get_device allocated test (holds f rest) = (false, search test (f ∷ rest), holds f rest)

module _ (devices : Ptr → Device) where
  unfoldable pub get_device_by_id : (allocated : Bool) → ℕ → Ldc → Bool × Option Ptr × Ldc
  get_device_by_id allocated id = get_device allocated (λ p. (devices p).id == id)

  unfoldable pub get_device_by_address : (allocated : Bool) → Bytes → Ldc → Bool × Option Ptr × Ldc
  get_device_by_address allocated adr = get_device allocated (λ p. str_eq (devices p).address adr)
