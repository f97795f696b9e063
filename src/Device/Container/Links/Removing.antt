-- ===== src/Device/Container/Links/Removing.antt =====
-- `LDCremove` on the containers in memory does what the list of devices says.
use lielas.Base.{
  ℕ, zero, suc, ◌<◌, ◌≡◌, refl, ap, ◌∙◌, sym, true, false, none, some, List, [], ◌∷◌, ◌++◌, ◌==◌,
  arith, All, length, done, ==_iff, inl, inr, Bool-cases, length-append,
}
use lielas.Device.Slots.{Ptr}
use lielas.Device.Container.{Ldc, missing, empty, holds, removed, not_found, remove, from_next}
use lielas.Device.Container.Lookup.{members}
use lielas.Device.Container.Links.{
  Con, Links, store_con, read_con, write_ldc, has_device, walk, make_first, ldc_remove,
}
use lielas.Device.Container.Links.Chain.{
  Held, head_at, IsFrom, IsDistinct, devices, IsLinked, IsFrom-store, walk-found, walk-absent,
  held-cases, length-devices,
}
use lielas.Device.Container.Links.Unlinking.{unlink-later, IsApart-at, IsDistinct-without}

-- The first container goes: the second becomes the first, and knows itself.
make_first-second :
    (s : Links) (prev : Ptr) (x : Held) (xs : List Held)
    → IsFrom s.con prev (x ∷ xs)
    → IsDistinct (x ∷ xs)
    → (s' : Links) × (make_first (head_at xs) (store_con x.at none s) ≡ done s')
      × IsLinked s' (from_next (devices xs))
unfolding make_first from_next store_con write_ldc
make_first-second s prev x [] h distinct =
    (record (store_con x.at none s) { first = none }, refl, refl)
make_first-second s prev x (y ∷ ys) h distinct =
    let s₁ : Links = record (store_con x.at none s) { first = some y.at } in
    let here : Con = record { d = some y.dev; ldc = some y.at; ndc = head_at ys } in
    let kept₁ = IsFrom-store x.at none s y.at ys distinct.0.1 h.1.1 in
    let kept₂ = IsFrom-store y.at (some here) s₁ y.at ys distinct.1.0 kept₁ in
    let same = (==_iff y.at y.at).1 refl in
    (
      store_con y.at (some here) s₁,
      ground (arith, h.1.0, distinct.0.0),
      (y.at, ys, refl, (ground (arith, same), kept₂), distinct.1, refl),
    )

module _ (fuel : ℕ) (d : Ptr) (s : Links) (x : Held) (xs : List Held) (first : s.first ≡ some x.at)
    (chain : IsFrom s.con x.at (x ∷ xs)) (distinct : IsDistinct (x ∷ xs))
    (enough : length xs < fuel) where
  ldc_remove-first :
      (x.dev == d) ≡ true
      → (s' : Links) × (ldc_remove fuel d s ≡ done (removed, s'))
        × IsLinked s' (from_next (devices xs))
  unfolding ldc_remove read_con has_device
  ldc_remove-first same =
      let walked = walk-found d fuel s x.at x.at x [] xs refl chain tt same (omega arith) in
      let (s', made, linked) = make_first-second s x.at x xs chain distinct in
      let here = (==_iff x.at x.at).1 refl in
      (s', ground (arith, first, walked, chain.0, same, here, made), linked)

  ldc_remove-absent :
      All (λ y. (y.dev == d) ≡ false) (x ∷ xs) → ldc_remove fuel d s ≡ done (not_found, s)
  unfolding ldc_remove read_con
  ldc_remove-absent others =
      let (q, c, walked, there, other) = walk-absent d fuel s x.at x xs chain others enough in
      ground (arith, first, walked, there, other)

  ldc_remove-later :
      (before after : List Held) (y : Held)
      → xs ≡ before ++ y ∷ after
      → (x.dev == d) ≡ false
      → All (λ z. (z.dev == d) ≡ false) before
      → (y.dev == d) ≡ true
      → (s' : Links) × (ldc_remove fuel d s ≡ done (removed, s'))
        × IsLinked s' (holds x.dev (devices (before ++ after)))
  unfolding ldc_remove read_con has_device
  ldc_remove-later before after y e other others same =
      let chain' : IsFrom s.con x.at (x ∷ before ++ y ∷ after) = rw (sym e) chain in
      let distinct' : IsDistinct (x ∷ before ++ y ∷ after) = rw (sym e) distinct in
      let sizes = ap length e ∙ length-append before (y ∷ after) in
      let walked =
        walk-found d fuel s x.at x.at y (x ∷ before) after refl chain' (other, others) same
          (omega arith) in
      let (s', c, there, dev, cut, chain₁, kept, frame) =
        unlink-later s x.at x before y after chain' distinct' in
      let apart = IsApart-at x.at before after y distinct'.0 in
      (
        s',
        ground (arith, first, walked, there, dev, same, apart, cut),
        (
          x.at,
          before ++ after,
          kept ∙ first,
          chain₁,
          IsDistinct-without (x ∷ before) after y distinct',
          refl,
        ),
      )

-- From containers in memory that stand for a list of devices, each linked with those beside it and
-- no two at one address, `LDCremove` returns what the removal from the list returns, without a read
-- or a write of freed memory, and leaves containers in memory that stand for the list it leaves;
-- the fuel exceeds the number of devices.
pub ldc_remove-remove :
    (fuel : ℕ) (d : Ptr) (s : Links) (t : Ldc)
    → IsLinked s t
    → length (members t) < fuel
    → let (r, t') = remove d t in
      (s' : Links) × (ldc_remove fuel d s ≡ done (r, s')) × IsLinked s' t'
unfolding ldc_remove remove walk read_con has_device
ldc_remove-remove fuel d s missing h enough = (s, rw (h) refl, h)
ldc_remove-remove zero d s empty h enough = absurd (omega arith)
ldc_remove-remove (suc fuel) d s empty (p, first, there) enough =
    (s, ground (arith, first, there), (p, first, there))
ldc_remove-remove fuel d s (holds f rest) (p, xs, first, chain, distinct, devs) enough =
    let x : Held = record { at = p; dev = f } in
    let enough' : length xs < fuel =
      let sizes = sym (length-devices xs) ∙ ap length devs in omega arith in
    rw (sym devs) (elim (Bool-cases (f == d)) [
      | inl same ↦ rw same (ldc_remove-first fuel d s x xs first chain distinct enough' same)
      | inr other ↦ elim (held-cases d xs) [
        | inl (before, after, y, e, others, same, cut) ↦
            rw (other, cut)
              (ldc_remove-later fuel d s x xs first chain distinct enough' before after y e other
                others same)
        | inr (others, cut) ↦
            rw (other, cut)
              (
                s,
                ldc_remove-absent fuel d s x xs first chain distinct enough' (other, others),
                (p, xs, first, chain, distinct, devs),
              )
      ]
    ])
