-- ===== src/Device/Container/Links/Appending.antt =====
-- `LDCadd` on the containers in memory does what the list of devices says.
use lielas.Base.{
  ℕ, ◌<◌, ◌≡◌, refl, ap, ◌∙◌, sym, Bool, true, false, Option, none, some, List, [], ◌∷◌, ◌++◌, ◌==◌,
  arith, length, done, ==_iff, ◌≢◌, inl, inr, Bool-cases,
}
use lielas.Device.Slots.{Ptr}
use lielas.Device.Container.{Ldc, missing, empty, holds, add}
use lielas.Device.Container.Lookup.{members}
use lielas.Device.Container.Links.{
  Con, Links, store_con, read_con, write_ndc, append_container, ldc_add,
}
use lielas.Device.Container.Links.Chain.{
  Held, IsFrom, IsApart, IsDistinct, devices, IsLinked, last_at, walk-last, length-devices,
}
use lielas.Device.Container.Links.Unlinking.{apart_sym}

-- A new container at `q` behind the last one of a chain.
append_container-chain :
    (q d : Ptr) (s : Links) (prev : Ptr) (x : Held) (xs : List Held)
    → IsFrom s.con prev (x ∷ xs)
    → IsDistinct (x ∷ xs)
    → IsApart q (x ∷ xs)
    → (s' : Links) × (append_container (some q) d (last_at x.at xs) s ≡ done (false, s'))
      × IsFrom s'.con prev (x ∷ xs ++ record { at = q; dev = d } ∷ [])
      × IsDistinct (x ∷ xs ++ record { at = q; dev = d } ∷ [])
      × (s'.first ≡ s.first)
      × ((p : Ptr) → IsApart p (x ∷ xs) → (q == p) ≡ false → s'.con p ≡ s.con p)
unfolding append_container write_ndc store_con
append_container-chain q d s prev x [] h distinct apart =
    let new : Con = record { d = some d; ldc = some x.at; ndc = none } in
    let old : Con = record { d = some x.dev; ldc = some prev; ndc = some q } in
    let here = (==_iff q q).1 refl in
    let there = (==_iff x.at x.at).1 refl in
    let other = apart_sym x.at q apart.0 in
    (
      store_con x.at (some old) (store_con q (some new) s),
      ground (arith, h.0, apart.0),
      (ground (arith, there), (ground (arith, other, here), tt)),
      ((other, tt), (tt, tt)),
      refl,
      λ p out aside. ground (arith, apart_sym x.at p out.0, apart_sym q p aside),
    )
append_container-chain q d s prev x (y ∷ ys) h distinct apart =
    let (s', made, chain, distinct', first, frame) =
      append_container-chain q d s x.at y ys h.1 distinct.1 apart.1 in
    let other = apart_sym x.at q apart.0 in
    (
      s',
      made,
      (frame x.at distinct.0 other ∙ h.0, chain),
      (IsApart-append x.at q d (y ∷ ys) distinct.0 other, distinct'),
      first,
      λ p out aside. frame p out.1 aside,
    )
  where
    IsApart-append :
        (p q d : Ptr) (xs : List Held)
        → IsApart p xs
        → (q == p) ≡ false
        → IsApart p (xs ++ record { at = q; dev = d } ∷ [])
    IsApart-append p q d [] h aside = (aside, tt)
    IsApart-append p q d (x ∷ xs) h aside = (h.0, IsApart-append p q d xs h.1 aside)

-- Memory that is not in use is apart from a chain.
IsApart-free :
    (q : Ptr) (s : Links) (prev : Ptr) (xs : List Held)
    → IsFrom s.con prev xs
    → s.con q ≡ none
    → IsApart q xs
IsApart-free q s prev [] h free = tt
IsApart-free q s prev (x ∷ xs) h free = (
  elim (Bool-cases (x.at == q)) [
    | inr differs ↦ differs
    | inl same ↦ absurd (some-none (sym h.0 ∙ ap s.con ((==_iff x.at q).0 same) ∙ free))
  ],
  IsApart-free q s x.at xs h.1 free,
)
  where
    some-none : {c : Con} → some c ≢ none
    some-none e = absurd (cc)

devices-append : (xs : List Held) (x : Held) → devices (xs ++ x ∷ []) ≡ devices xs ++ x.dev ∷ []
devices-append [] x = refl
devices-append (y ∷ xs) x = ap (λ l. y.dev ∷ l) (devices-append xs x)

-- The new container goes behind the last one.
ldc_add-last :
    (fuel : ℕ) (new_dc : Option Ptr) (d : Ptr) (s : Links) (x : Held) (xs : List Held)
    → s.first ≡ some x.at
    → IsFrom s.con x.at (x ∷ xs)
    → length xs < fuel
    → ldc_add fuel new_dc d s ≡ append_container new_dc d (last_at x.at xs) s
unfolding ldc_add read_con
ldc_add-last fuel new_dc d s x [] first chain enough = ground (arith, first, chain.0)
ldc_add-last fuel new_dc d s x (y ∷ ys) first chain enough =
    let walked = walk-last (λ _. false) fuel s x.at x (y ∷ ys) (λ _. refl) chain enough in
    ground (arith, first, chain.0, walked)

abbrev pub is_some : Option Ptr → Bool
is_some none = false
is_some (some p) = true

-- From containers in memory that stand for a list of devices, `LDCadd` returns what the addition to
-- the list returns, without a read or a write of memory that is not in use, and leaves containers
-- in memory that stand for the list it leaves: each linked with those beside it, no two at one
-- address; the new container is in memory that was not in use, and the fuel exceeds the number of
-- devices.
pub ldc_add-add :
    (fuel : ℕ) (new_dc : Option Ptr) (d : Ptr) (s : Links) (t : Ldc)
    → IsLinked s t
    → ((q : Ptr) → new_dc ≡ some q → s.con q ≡ none)
    → length (members t) < fuel
    → let (failed, t') = add (is_some new_dc) d t in
      (s' : Links) × (ldc_add fuel new_dc d s ≡ done (failed, s')) × IsLinked s' t'
unfolding ldc_add add read_con append_container store_con
ldc_add-add fuel new_dc d s missing h free enough = (s, rw h refl, h)
ldc_add-add fuel new_dc d s empty (p, first, there) free enough =
    let here = (==_iff p p).1 refl in
    (
      store_con p (some (record { d = some d; ldc = some p; ndc = none })) s,
      ground (arith, first, there),
      (p, [], first, (ground (arith, here), tt), (tt, tt), refl),
    )
ldc_add-add fuel none d s (holds f rest) (p, xs, first, chain, distinct, devs) free enough =
    let sizes = sym (length-devices xs) ∙ ap length devs in
    let last =
      ldc_add-last fuel none d s (record { at = p; dev = f }) xs first chain (omega arith) in
    (s, last, (p, xs, first, chain, distinct, devs))
ldc_add-add fuel (some q) d s (holds f rest) (p, xs, first, chain, distinct, devs) free enough =
    let x : Held = record { at = p; dev = f } in
    let sizes = sym (length-devices xs) ∙ ap length devs in
    let last = ldc_add-last fuel (some q) d s x xs first chain (omega arith) in
    let apart = IsApart-free q s p (x ∷ xs) chain (free q refl) in
    let (s', made, chain', distinct', kept, _) =
      append_container-chain q d s p x xs chain distinct apart in
    let new : Held = record { at = q; dev = d } in
    let devs' = devices-append xs new ∙ ap (λ l. l ++ d ∷ []) devs in
    (s', last ∙ made, (p, xs ++ new ∷ [], kept ∙ first, chain', distinct', devs'))
