-- ===== src/Device/Container/Links/Unlinking.antt =====
-- `LDCremove` on the containers in memory.
use lielas.Base.{◌≡◌, refl, ◌∙◌, false, none, some, List, [], ◌∷◌, ◌++◌, ◌==◌, arith, done, ==_iff}
use lielas.Device.Slots.{Ptr}
use lielas.Device.Container.Links.{
  Con, Links, store_con, read_con, write_ldc, write_ndc, ldc_unlink,
}
use lielas.Device.Container.Links.Chain.{Held, head_at, IsFrom, IsApart, IsDistinct, IsFrom-store}

pub apart_sym : (p q : Ptr) → (p == q) ≡ false → (q == p) ≡ false
apart_sym p q h = ground (arith)

-- Behind the container `b` of a chain the next one, `x`, is unlinked.
unlink-next :
    (s : Links) (prev : Ptr) (b x : Held) (after : List Held)
    → IsFrom s.con prev (b ∷ x ∷ after)
    → IsDistinct (b ∷ x ∷ after)
    → (s' : Links) × (ldc_unlink x.at
          (record { d = some x.dev; ldc = some b.at; ndc = head_at after })
          s
        ≡ done s')
      × IsFrom s'.con prev (b ∷ after)
      × (s'.first ≡ s.first)
      × ((q : Ptr) → IsApart q (b ∷ x ∷ after) → s'.con q ≡ s.con q)
unfolding ldc_unlink read_con write_ldc write_ndc store_con
unlink-next s prev b x [] h distinct =
    let here : Con = record { d = some b.dev; ldc = some prev; ndc = none } in
    let s₁ = store_con b.at (some here) s in
    let apart = apart_sym x.at b.at distinct.0.0 in
    let same = (==_iff b.at b.at).1 refl in
    (
      store_con x.at none s₁,
      ground (arith, h.0),
      (ground (arith, apart, same), tt),
      refl,
      λ q out. ground (arith, apart_sym b.at q out.0, apart_sym x.at q out.1.0),
    )
unlink-next s prev b x (y ∷ after) h distinct =
    let here : Con = record { d = some b.dev; ldc = some prev; ndc = some y.at } in
    let s₁ = store_con b.at (some here) s in
    let moved : Con = record { d = some y.dev; ldc = some b.at; ndc = head_at after } in
    let s₂ = store_con y.at (some moved) s₁ in
    let apart_x = apart_sym x.at b.at distinct.0.0 in
    let apart_y = apart_sym y.at b.at distinct.0.1.0 in
    let apart = distinct.1.0.0 in
    let same = (==_iff b.at b.at).1 refl in
    let same_y = (==_iff y.at y.at).1 refl in
    let kept₁ = IsFrom-store b.at (some here) s y.at after distinct.0.1.1 h.1.1.1 in
    let kept₂ = IsFrom-store y.at (some moved) s₁ y.at after distinct.1.1.0 kept₁ in
    let kept₃ = IsFrom-store x.at none s₂ y.at after distinct.1.0.1 kept₂ in
    (
      store_con x.at none s₂,
      ground (arith, h.0, h.1.1.0, distinct.0.1.0),
      (ground (arith, apart_x, apart_y, same), (ground (arith, apart, same_y), kept₃)),
      refl,
      λ q out.
          ground
            (arith, apart_sym b.at q out.0, apart_sym x.at q out.1.0, apart_sym y.at q out.1.1.0),
    )

pub IsApart-at :
    (p : Ptr) (before after : List Held) (x : Held)
    → IsApart p (before ++ x ∷ after)
    → (x.at == p) ≡ false
IsApart-at p [] after x h = h.0
IsApart-at p (b ∷ before) after x h = IsApart-at p before after x h.1

IsApart-without :
    (p : Ptr) (before after : List Held) (x : Held)
    → IsApart p (before ++ x ∷ after)
    → IsApart p (before ++ after)
IsApart-without p [] after x h = h.1
IsApart-without p (b ∷ before) after x h = (h.0, IsApart-without p before after x h.1)

pub IsDistinct-without :
    (before after : List Held) (x : Held)
    → IsDistinct (before ++ x ∷ after)
    → IsDistinct (before ++ after)
IsDistinct-without [] after x h = h.1
IsDistinct-without (b ∷ before) after x h =
    (IsApart-without b.at before after x h.0, IsDistinct-without before after x h.1)

-- Behind the container `b` of a chain a later one, `x`, is unlinked.
pub unlink-later :
    (s : Links) (prev : Ptr) (b : Held) (before : List Held) (x : Held) (after : List Held)
    → IsFrom s.con prev (b ∷ before ++ x ∷ after)
    → IsDistinct (b ∷ before ++ x ∷ after)
    → (s' : Links) × (c : Con) × (s.con x.at ≡ some c)
      × (c.d ≡ some x.dev)
      × (ldc_unlink x.at c s ≡ done s')
      × IsFrom s'.con prev (b ∷ before ++ after)
      × (s'.first ≡ s.first)
      × ((q : Ptr) → IsApart q (b ∷ before ++ x ∷ after) → s'.con q ≡ s.con q)
unlink-later s prev b [] x after h distinct =
    let c : Con = record { d = some x.dev; ldc = some b.at; ndc = head_at after } in
    let (s', cut, chain, first, frame) = unlink-next s prev b x after h distinct in
    (s', c, h.1.0, refl, cut, chain, first, frame)
unlink-later s prev b (b' ∷ before) x after h distinct =
    let (s', c, there, dev, cut, chain, first, frame) =
      unlink-later s b.at b' before x after h.1 distinct.1 in
    (s', c, there, dev, cut, (frame b.at distinct.0 ∙ h.0, chain), first, λ q out. frame q out.1)
