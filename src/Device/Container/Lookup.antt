-- ===== src/Device/Container/Lookup.antt =====
-- Searching after adding and removing.
use lielas.Base.{
  ℕ, ◌≡◌, ◌≢◌, refl, Bool, true, false, none, some, List, [], ◌∷◌, ◌++◌, ◌==◌, if◌then◌else◌, arith,
  All, ==_iff,
}
use lielas.Device.Slots.{Ptr}
use lielas.Device.Container.{
  Device, Ldc, missing, empty, holds, add, init, removed, from_next, remove, search, get_device,
  get_device_by_id,
}

-- The devices of the container in their order.
abbrev pub members : Ldc → List Ptr
members missing = []
members empty = []
members (holds f rest) = f ∷ rest

-- A container, and memory for one more.
pub add-members : (l : Ldc) (p : Ptr) → l ≢ missing → members (add true p l).1 ≡ members l ++ p ∷ []
unfolding add
add-members missing p there = absurd (there refl)
add-members empty p there = refl
add-members (holds f rest) p there = refl

search-append :
    (test : Ptr → Bool) (xs : List Ptr) (d : Ptr)
    → search test (xs ++ d ∷ [])
      ≡ (elim (search test xs) [ some p ↦ some p | none ↦ if test d then some d else none ])
unfolding search
search-append test [] d = refl
search-append test (x ∷ xs) d = ground (arith, search-append test xs d)

pub search-absent :
    (test : Ptr → Bool) (xs : List Ptr) → All (λ p. test p ≡ false) xs → search test xs ≡ none
unfolding search
search-absent test [] h = refl
search-absent test (x ∷ xs) h = ground (arith, h.0, search-absent test xs h.1)

module _ (devices : Ptr → Device) where
  -- No device of the list has the id.
  abbrev pub IsNew : ℕ → List Ptr → Type 0
  IsNew id xs = All (λ p. ((devices p).id == id) ≡ false) xs

  -- A device that is added to a container that exists is found by its id, if no other device has
  -- it, and the search for any other id gives what it gave before; the allocation succeeds.
  pub get_device_by_id-add :
      (d : Ptr) (s : Ldc)
      → s ≢ missing
      → IsNew (devices d).id (members s)
      → let (failed, s') = add true d s in
        (failed ≡ false)
        × ((get_device_by_id devices true (devices d).id s').1 ≡ some d)
        × ((id : ℕ)
            → ((devices d).id == id) ≡ false
            → (get_device_by_id devices true id s').1 ≡ (get_device_by_id devices true id s).1)
  unfolding add get_device_by_id get_device search
  get_device_by_id-add d missing there new = absurd (there refl)
  get_device_by_id-add d empty there new =
      let same = (==_iff (devices d).id (devices d).id).1 refl in
      (refl, ground (arith, same), λ id ne. ground (arith, ne))
  get_device_by_id-add d (holds f rest) there new =
      let same = (==_iff (devices d).id (devices d).id).1 refl in
      let test = λ (id : ℕ) (p : Ptr). (devices p).id == id in
      let absent = search-absent (test (devices d).id) rest new.1 in
      let added = search-append (test (devices d).id) rest d in
      (
        refl,
        ground (arith, same, absent, added, new.0),
        λ id ne. let other = search-append (test id) rest d in ground (arith, ne, other),
      )

  -- Once its only device is removed the container is gone: adding a device is then refused, until a
  -- search, which finds nothing, has made a new container.
  pub add-removed_last :
      (d e : Ptr)
      → let (r, s) = remove d (holds d []) in
        (r ≡ removed)
        × (add true e s ≡ (true, s))
        × ((id : ℕ)
            → let (failed, found, s') = get_device_by_id devices true id s in
              (failed ≡ false) × (found ≡ none) × (add true e s' ≡ (false, holds e [])))
  unfolding remove from_next add init get_device_by_id get_device
  add-removed_last d e =
      let same = (==_iff d d).1 refl in rw same (refl, refl, λ id. (refl, refl, refl))
