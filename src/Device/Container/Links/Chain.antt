-- ===== src/Device/Container/Links/Chain.antt =====
-- The chain of the containers in memory, first to last.
use lielas.Base.{
  ℕ, zero, suc, ◌<◌, ◌≡◌, refl, ap, Bool, true, false, Option, none, some, List, [], ◌∷◌, ◌++◌,
  ◌==◌, arith, All, length, done, ◌⊎◌, inl, inr, Bool-cases,
}
use lielas.Device.Slots.{Ptr}
use lielas.Device.Container.{Ldc, missing, empty, holds, delete}
use lielas.Device.Container.Links.{Con, Links, store_con, read_con, has_device, walk}

-- A container that holds a device, by its address.
pub record Held : Type 0 where
  pub at : Ptr
  pub dev : Ptr

abbrev pub head_at : List Held → Option Ptr
head_at [] = none
head_at (x ∷ xs) = some x.at

-- The containers of a list follow each other, the first of them behind the container at `prev`.
abbrev pub IsFrom : (Ptr → Option Con) → (prev : Ptr) → List Held → Type 0
IsFrom con prev [] = Unit
IsFrom con prev (x ∷ xs) =
    (con x.at ≡ some (record { d = some x.dev; ldc = some prev; ndc = head_at xs }))
    × IsFrom con x.at xs

abbrev pub IsApart : Ptr → List Held → Type 0
IsApart p xs = All (λ x. (x.at == p) ≡ false) xs

-- No two containers have one address.
abbrev pub IsDistinct : List Held → Type 0
IsDistinct [] = Unit
IsDistinct (x ∷ xs) = IsApart x.at xs × IsDistinct xs

abbrev pub devices : List Held → List Ptr
devices [] = []
devices (x ∷ xs) = x.dev ∷ devices xs

pub length-devices : (xs : List Held) → length (devices xs) ≡ length xs
length-devices [] = refl
length-devices (x ∷ xs) = ap suc (length-devices xs)

-- The containers in memory stand for a list: each knows the one behind it and the one before it,
-- and the first one itself.
abbrev pub IsLinked : Links → Ldc → Type 0
IsLinked s missing = s.first ≡ none
IsLinked s empty =
    (p : Ptr) × (s.first ≡ some p) × (s.con p ≡ some (record { d = none; ldc = none; ndc = none }))
IsLinked s (holds f rest) =
    (p : Ptr) × (xs : List Held) × (s.first ≡ some p)
    × IsFrom s.con p (record { at = p; dev = f } ∷ xs)
    × IsDistinct (record { at = p; dev = f } ∷ xs)
    × (devices xs ≡ rest)

-- A container elsewhere may change.
pub IsFrom-store :
    (p : Ptr) (c : Option Con) (s : Links) (prev : Ptr) (xs : List Held)
    → IsApart p xs
    → IsFrom s.con prev xs
    → IsFrom (store_con p c s).con prev xs
unfolding store_con
IsFrom-store p c s prev [] apart h = tt
IsFrom-store p c s prev (x ∷ xs) apart h =
    (ground (arith, apart.0, h.0), IsFrom-store p c s x.at xs apart.1 h.1)

abbrev pub last_at : Ptr → List Held → Ptr
last_at p [] = p
last_at p (x ∷ xs) = last_at x.at xs

-- A walk that nothing stops ends at the last container.
pub walk-last :
    (stop : Con → Bool) (fuel : ℕ) (s : Links) (prev : Ptr) (x : Held) (xs : List Held)
    → ((c : Con) → stop c ≡ false)
    → IsFrom s.con prev (x ∷ xs)
    → length xs < fuel
    → walk stop fuel x.at s ≡ done (last_at x.at xs)
unfolding walk read_con
walk-last stop zero s prev x xs on h enough = absurd (omega arith)
walk-last stop (suc fuel) s prev x [] on h enough = ground (arith, h.0)
walk-last stop (suc fuel) s prev x (y ∷ ys) on h enough =
    let later = walk-last stop fuel s x.at y ys on h.1 (omega arith) in
    let here = on (record { d = some x.dev; ldc = some prev; ndc = some y.at }) in
    ground (arith, h.0, here, later)

-- The walk of a removal ends at the first container of the device.
pub walk-found :
    (d : Ptr) (fuel : ℕ) (s : Links) (prev p : Ptr) (x : Held) (before after : List Held)
    → head_at (before ++ x ∷ after) ≡ some p
    → IsFrom s.con prev (before ++ x ∷ after)
    → All (λ y. (y.dev == d) ≡ false) before
    → (x.dev == d) ≡ true
    → length before < fuel
    → walk (has_device d) fuel p s ≡ done x.at
unfolding walk read_con has_device
walk-found d zero s prev p x before after e h others same enough = absurd (omega arith)
walk-found d (suc fuel) s prev p x [] [] e h others same enough = ground (arith, h.0)
walk-found d (suc fuel) s prev p x [] (y ∷ ys) e h others same enough = ground (arith, h.0, same)
walk-found d (suc fuel) s prev p x (b ∷ []) after e h others same enough =
    let later = walk-found d fuel s b.at x.at x [] after refl h.1 tt same (omega arith) in
    ground (arith, h.0, others.0, later)
walk-found d (suc fuel) s prev p x (b ∷ b' ∷ before) after e h others same enough =
    let later =
      walk-found d fuel s b.at b'.at x (b' ∷ before) after refl h.1 others.1 same (omega arith) in
    ground (arith, h.0, others.0, later)

-- Without the device it ends at the last container, which does not hold it.
pub walk-absent :
    (d : Ptr) (fuel : ℕ) (s : Links) (prev : Ptr) (x : Held) (xs : List Held)
    → IsFrom s.con prev (x ∷ xs)
    → All (λ y. (y.dev == d) ≡ false) (x ∷ xs)
    → length xs < fuel
    → (q : Ptr) × (c : Con) × (walk (has_device d) fuel x.at s ≡ done q)
      × (s.con q ≡ some c)
      × (has_device d c ≡ false)
unfolding walk read_con has_device
walk-absent d zero s prev x xs h others enough = absurd (omega arith)
walk-absent d (suc fuel) s prev x [] h others enough = (
  x.at,
  record { d = some x.dev; ldc = some prev; ndc = none },
  ground (arith, h.0),
  h.0,
  others.0,
)
walk-absent d (suc fuel) s prev x (y ∷ ys) h others enough =
    let (q, c, walked, there, other) = walk-absent d fuel s x.at y ys h.1 others.1 (omega arith) in
    (q, c, ground (arith, h.0, others.0, walked), there, other)

-- A device is in the first of some containers, or in none.
pub held-cases :
    (d : Ptr) (xs : List Held)
    → ((before after : List Held) × (x : Held) × (xs ≡ before ++ x ∷ after)
        × All (λ y. (y.dev == d) ≡ false) before
        × ((x.dev == d) ≡ true)
        × (delete d (devices xs) ≡ some (devices (before ++ after))))
      ⊎ (All (λ y. (y.dev == d) ≡ false) xs × (delete d (devices xs) ≡ none))
unfolding delete
held-cases d [] = inr (tt, refl)
held-cases d (x ∷ xs) = elim (Bool-cases (x.dev == d)) [
  | inl same ↦ inl ([], xs, x, refl, tt, same, ground (arith, same))
  | inr other ↦ elim (held-cases d xs) [
    | inl (before, after, y, e, others, same, cut) ↦
        inl (
          x ∷ before,
          after,
          y,
          ap (λ l. x ∷ l) e,
          (other, others),
          same,
          ground (arith, other, cut),
        )
    | inr (others, cut) ↦ inr ((other, others), ground (arith, other, cut))
  ]
]
