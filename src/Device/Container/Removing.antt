-- ===== src/Device/Container/Removing.antt =====
-- Removing a device from the list.
use lielas.Base.{
  ℕ, ◌≡◌, refl, ◌∙◌, ap, Bool, true, false, none, some, List, [], ◌∷◌, ◌++◌, ◌==◌, arith, All,
  ==_iff, Bool-cases, inl, inr,
}
use lielas.Device.Slots.{Ptr}
use lielas.Device.Container.{
  Device, Ldc, missing, empty, holds, init, removed, delete, from_next, remove, search, get_device,
  get_device_by_id,
}
use lielas.Device.Container.Lookup.{members, IsNew, search-absent}

get_device-members :
    (test : Ptr → Bool) (s : Ldc) → (get_device true test s).1 ≡ search test (members s)
unfolding get_device search init
get_device-members test missing = refl
get_device-members test empty = refl
get_device-members test (holds f rest) = refl

members-from_next : (xs : List Ptr) → members (from_next xs) ≡ xs
unfolding from_next
members-from_next [] = refl
members-from_next (x ∷ xs) = refl

delete-at :
    (d : Ptr) (before after : List Ptr)
    → All (λ p. (p == d) ≡ false) before
    → delete d (before ++ d ∷ after) ≡ some (before ++ after)
unfolding delete
delete-at d [] after h = let same = (==_iff d d).1 refl in ground (arith, same)
delete-at d (x ∷ before) after h = ground (arith, h.0, delete-at d before after h.1)

pub remove-members :
    (d : Ptr) (s : Ldc) (before after : List Ptr)
    → members s ≡ before ++ d ∷ after
    → All (λ p. (p == d) ≡ false) before
    → ((remove d s).0 ≡ removed) × (members (remove d s).1 ≡ before ++ after)
unfolding remove
remove-members d missing [] after e h = absurd (cc)
remove-members d missing (x ∷ before) after e h = absurd (cc)
remove-members d empty [] after e h = absurd (cc)
remove-members d empty (x ∷ before) after e h = absurd (cc)
remove-members d (holds f rest) [] after e h =
    let same : (f == d) ≡ true = ground arith in
    let tail : rest ≡ after = ground arith in rw same (refl, members-from_next rest ∙ tail)
remove-members d (holds f rest) (x ∷ before) after e h =
    let other : (f == d) ≡ false = ground (arith, h.0) in
    let tail : rest ≡ before ++ d ∷ after = ground arith in
    let cut = ap (delete d) tail ∙ delete-at d before after h.1 in
    (ground (arith, other, cut), ground (arith, other, cut))

module _ (devices : Ptr → Device) where
  IsNew-other :
      (d : Ptr) (xs : List Ptr) → IsNew devices (devices d).id xs → All (λ p. (p == d) ≡ false) xs
  IsNew-other d [] h = tt
  IsNew-other d (x ∷ xs) h = (
    elim (Bool-cases (x == d)) [
      | inr differs ↦ differs
      | inl same ↦
          let ids = ap (λ p. (devices p).id) ((==_iff x d).0 same) in
          let equal = (==_iff (devices x).id (devices d).id).1 ids in
          absurd (ground (arith, equal, h.0))
    ],
    IsNew-other d xs h.1,
  )

  IsNew-append :
      (id : ℕ) (xs ys : List Ptr)
      → IsNew devices id xs
      → IsNew devices id ys
      → IsNew devices id (xs ++ ys)
  IsNew-append id [] ys hx hy = hy
  IsNew-append id (x ∷ xs) ys hx hy = (hx.0, IsNew-append id xs ys hx.1 hy)

  -- Removing a device that the container holds succeeds and takes it out of the list, the others in
  -- their order, and its id is no longer found, if no other device has it.
  pub get_device_by_id-remove :
      (d : Ptr) (s : Ldc) (before after : List Ptr)
      → members s ≡ before ++ d ∷ after
      → IsNew devices (devices d).id before
      → IsNew devices (devices d).id after
      → let (r, s') = remove d s in
        (r ≡ removed)
        × (members s' ≡ before ++ after)
        × ((get_device_by_id devices true (devices d).id s').1 ≡ none)
  unfolding get_device_by_id
  get_device_by_id-remove d s before after e hb ha =
      let (r, kept) = remove-members d s before after e (IsNew-other d before hb) in
      let test = λ (p : Ptr). (devices p).id == (devices d).id in
      let absent =
        search-absent test (before ++ after) (IsNew-append (devices d).id before after hb ha) in
      (r, kept, get_device-members test (remove d s).1 ∙ ap (search test) kept ∙ absent)
