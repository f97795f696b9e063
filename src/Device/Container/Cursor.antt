-- ===== src/Device/Container/Cursor.antt =====
-- `LDCgetFirstDevice` and `LDCgetNextDevice` of devicecontainer.c, which step through the devices.
pub mod Rounds
use lielas.Base.{
  ℕ, zero, suc, Bool, true, false, Option, none, some, List, [], ◌∷◌, ◌++◌, ◌==◌, if◌then◌else◌,
  Run, done, fault, ◌>>=◌,
}
use lielas.Device.Slots.{Ptr}
use lielas.Device.Container.{Ldc, missing, empty, holds}

-- `dcPtr`: the devices from its container on, none for a container without a device. The
-- containers do not change while the cursor is used; once they are all freed it dangles.
abbrev pub Cursor : Type 0
Cursor = Option (List Ptr)

unfoldable pub get_first_device : Ldc → Cursor → Option Ptr × Cursor
get_first_device missing c = (none, c)
get_first_device empty c = (none, some [])
get_first_device (holds f rest) c = (some f, some (f ∷ rest))

-- The container behind that of the cursor.
unfoldable pub step_to : List Ptr → Option Ptr × Cursor
step_to [] = (none, none)
step_to (_ ∷ []) = (none, none)
step_to (_ ∷ d ∷ rest) = (some d, some (d ∷ rest))

unfoldable pub get_next_device : Ldc → Cursor → Run (Option Ptr × Cursor)
get_next_device s none = done (none, none)
get_next_device missing (some _) = fault
get_next_device empty (some ds) = done (step_to ds)
get_next_device (holds f rest) (some ds) = done (step_to ds)

-- `while(d != lastDevice)` of `HandleDevices`, which the end of the list breaks off: where the
-- cursor stands then.
unfoldable pub walk_to : Ptr → List Ptr → Cursor
walk_to last [] = none
walk_to last (d ∷ ds) = let later = walk_to last ds in if d == last then some (d ∷ ds) else later

unfoldable pub skip_to : Ptr → Ldc → Cursor → Run Cursor
skip_to last s none = done none
skip_to last missing (some _) = fault
skip_to last empty (some ds) = done (walk_to last ds)
skip_to last (holds f rest) (some ds) = done (walk_to last ds)

-- The device that `HandleDevices` takes after `last_device`: the next one, or the first behind the
-- last one.
unfoldable pub choose_device : Option Ptr → Ldc → Cursor → Run (Option Ptr × Cursor)
choose_device last s c =
    let (d, c₁) = get_first_device s c in
    elim last [
      | none ↦ done (d, c₁)
      | some l ↦ skip_to l s c₁ >>= λ c₂. get_next_device s c₂ >>= λ (d', c₃). elim d' [
        | some e ↦ done (some e, c₃)
        | none ↦ done (get_first_device s c₃)
      ]
    ]
