-- ===== src/Tests/Container.antt =====
-- A list of two devices, and three containers in memory.
use lielas.Base.{◌≡◌, refl, true, none, ◌-◌, [], ◌∷◌, codes, some, ◌==◌, if◌then◌else◌, done, arith}
use lielas.Device.Slots.{Ptr}
use lielas.Device.Container.{Device, Ldc, holds, removed, add, remove, get_device_by_id}
use lielas.Device.Container.Lookup.{members}
use lielas.Device.Container.Links.{Links, ldc_add, ldc_remove}
use lielas.Device.Container.Links.Chain.{IsLinked}
use lielas.Device.Container.Links.Appending.{ldc_add-add}
use lielas.Device.Container.Links.Removing.{ldc_remove-remove}
use lielas.Device.Container.Removing.{get_device_by_id-remove}

-- The id of a device is its address less 100.
abbrev numbered : Ptr → Device
numbered p = record { id = p - 100; address = codes "fd00::1" }

abbrev two_devices : Ldc
two_devices = holds 101 (102 ∷ [])

get_device_by_id-remove_example :
    let (r, s') = remove 101 two_devices in
    (r ≡ removed) × (members s' ≡ 102 ∷ []) × ((get_device_by_id numbered true 1 s').1 ≡ none)
get_device_by_id-remove_example =
    get_device_by_id-remove numbered 101 two_devices [] (102 ∷ []) refl tt (refl, tt)

-- Three containers in memory.
abbrev three_links : Links
three_links = record {
  con = λ q.
      if q == 201
      then some (record { d = some 101; ldc = some 201; ndc = some 202 })
      else if q == 202
      then some (record { d = some 102; ldc = some 201; ndc = some 203 })
      else if q == 203
      then some (record { d = some 103; ldc = some 202; ndc = none })
      else none;
  first = some 201;
}

abbrev three_devices : Ldc
three_devices = holds 101 (102 ∷ 103 ∷ [])

three_links-IsLinked : IsLinked three_links three_devices
three_links-IsLinked = (
  201,
  record { at = 202; dev = 102 } ∷ record { at = 203; dev = 103 } ∷ [],
  refl,
  (refl, (refl, (refl, tt))),
  ((refl, (refl, tt)), ((refl, tt), (tt, tt))),
  refl,
)

-- The second of three goes.
ldc_remove-remove_example :
    let (r, t') = remove 102 three_devices in
    (s' : Links) × (ldc_remove 4 102 three_links ≡ done (r, s')) × IsLinked s' t'
ldc_remove-remove_example =
    ldc_remove-remove 4 102 three_links three_devices three_links-IsLinked (omega arith)

-- The memory at 204 is not in use.
ldc_add-add_example :
    let (failed, t') = add true 104 three_devices in
    (s' : Links) × (ldc_add 4 (some 204) 104 three_links ≡ done (failed, s')) × IsLinked s' t'
ldc_add-add_example =
    ldc_add-add 4 (some 204) 104 three_links three_devices three_links-IsLinked
      (λ q e. ground (arith)) (omega arith)
