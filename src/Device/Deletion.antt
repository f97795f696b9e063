-- ===== src/Device/Deletion.antt =====
-- The creation and the deletion of modules and devices: `LcreateModul` and `LdeleteModul` of
-- modul.c, `LcreateDevice` and `LdeleteDevice` of device.c, in what they do with the arrays of
-- members. A result of the deletion is the list of the addresses in the order in which they are
-- freed.
pub mod Leak
use lielas.Base.{
  ℕ, zero, suc, ◌+◌, Bool, Option, none, some, List, [], ◌∷◌, ◌++◌, if◌then◌else◌, get_elem?, Run,
  done, fault, ◌>>=◌,
}
use lielas.Device.Slots.{Ptr, Slots}

-- What `LcreateModul` and `LcreateDevice` set: no member, and a null pointer in the first slot. The
-- other slots hold what `malloc` left.
unfoldable pub created : List (Option Ptr) → Slots
created left = record { count = 0; slot = none ∷ left; freed = [] }

unfoldable pub create : (allocated : Bool) → (left : List (Option Ptr)) → Option Slots
create allocated left = if allocated then some (created left) else none

-- `free`, which takes a null pointer too.
unfoldable pub free : Option Ptr → List Ptr → List Ptr
free none ps = ps
free (some p) ps = p ∷ ps

-- The loop of `LdeleteModul` from index `i` on, with `rounds` rounds left.
unfoldable pub free_channels : (rounds i : ℕ) → List (Option Ptr) → Run (List Ptr)
free_channels zero i slot = done []
free_channels (suc rounds) i slot = elim (get_elem? slot i) [
  | none ↦ fault
  | some q ↦ free_channels rounds (i + 1) slot >>= λ ps. done (free q ps)
]

unfoldable pub delete_modul : Ptr → Slots → Run (List Ptr)
delete_modul m s = free_channels s.count 0 s.slot >>= λ ps. done (ps ++ m ∷ [])

-- The loop of `LdeleteDevice`. The count of a null pointer's channels cannot be read.
unfoldable pub free_moduls : (Ptr → Slots) → (rounds i : ℕ) → List (Option Ptr) → Run (List Ptr)
free_moduls moduls zero i slot = done []
free_moduls moduls (suc rounds) i slot = elim (get_elem? slot i) [
  | none ↦ fault
  | some none ↦ fault
  | some (some m) ↦ delete_modul m (moduls m) >>= λ ps.
      free_moduls moduls rounds (i + 1) slot >>= λ qs. done (ps ++ qs)
]

unfoldable pub delete_device : (Ptr → Slots) → Ptr → Slots → Run (List Ptr)
delete_device moduls d s = free_moduls moduls s.count 0 s.slot >>= λ ps. done (ps ++ d ∷ [])
