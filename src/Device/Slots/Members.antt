-- ===== src/Device/Slots/Members.antt =====
-- Adding a member, and what the removal does to the members that stand from index 1 on.
use lielas.Base.{
  ℕ, zero, suc, ◌+◌, ◌-◌, ◌≤◌, ◌<◌, ◌≡◌, refl, ◌≢◌, false, Option, none, some, List, ◌∷◌, arith,
  get_elem?, set, length, length-set, get_elem?-set_self, get_elem?-set_ne, done, fault, ◌∙◌,
}
use lielas.Device.Slots.{Ptr, max_slots, Slots, write_slot, add, same, find, remove}

-- The array has its 20 slots, and there is room for a member and the null pointer behind it.
pub record HasRoom (s : Slots) : Type 0 where
  pub size : length s.slot ≡ max_slots
  pub room : s.count + 2 < max_slots

-- Below 18 members of an array of 20 slots an addition succeeds: the new member stands at the new
-- count, a null pointer behind it, and no member before it changes.
pub add-member :
    (p : Ptr) (s : Slots)
    → HasRoom s
    → (s' : Slots) × (add p s ≡ done s')
      × (s'.count ≡ s.count + 1)
      × (get_elem? s'.slot s'.count ≡ some (some p))
      × (get_elem? s'.slot (s'.count + 1) ≡ some none)
      × ((j : ℕ) → j ≤ s.count → get_elem? s'.slot j ≡ get_elem? s.slot j)
unfolding add write_slot
add-member p s h =
    let slot₁ = set s.slot (s.count + 1) (some p) in
    let len = length-set s.slot (s.count + 1) (some p) in
    let new : s.count + 1 < length s.slot = omega arith in
    let behind : s.count + 2 < length slot₁ = omega (arith, len) in
    let reassoc : s.count + 1 + 1 ≡ s.count + 2 = omega arith in
    (
      record s { count = s.count + 1; slot = set slot₁ (s.count + 2) none },
      ground (arith, len, reassoc),
      refl,
      get_elem?-set_ne slot₁ none (apart (s.count + 2) (s.count + 1) (omega arith))
          ∙ get_elem?-set_self s.slot (s.count + 1) (some p) new,
      rw reassoc (get_elem?-set_self slot₁ (s.count + 2) none behind),
      λ j le.
          get_elem?-set_ne slot₁ none (apart (s.count + 2) j (omega arith))
          ∙ get_elem?-set_ne s.slot (some p) (apart (s.count + 1) j (omega arith)),
    )
  where
    apart : (i j : ℕ) → j < i → i ≢ j
    apart i j lt = omega arith

-- With 18 or 19 members in an array of 20 slots an addition writes outside the array.
pub add_overflow :
    (p : Ptr) (s : Slots)
    → length s.slot ≡ max_slots
    → max_slots ≤ s.count + 2
    → s.count < max_slots
    → add p s ≡ fault
unfolding add write_slot
add_overflow p s size many few =
    let len = length-set s.slot (s.count + 1) (some p) in ground (arith, len)

find-at :
    (limit i k : ℕ) (p : Ptr) (slot : List (Option Ptr))
    → k < limit
    → ((j : ℕ) → j < k → (q : Option Ptr) × (get_elem? slot (i + j) ≡ some q) × (same q p ≡ false))
    → get_elem? slot (i + k) ≡ some (some p)
    → find limit i p slot ≡ done (i + k)
unfolding find same
find-at zero i k p slot short before here = absurd (omega arith)
find-at (suc limit) i zero p slot short before here =
    let start : i + 0 ≡ i = omega arith in ground (arith, here, start)
find-at (suc limit) i (suc k) p slot short before here =
    let (q, eq, ne) = before 0 (omega arith) in
    let start : i + 0 ≡ i = omega arith in
    let shift : i + 1 + k ≡ i + suc k = omega arith in
    let later =
      find-at limit (i + 1) k p slot (omega arith) (λ j lt. move j (before (suc j) (omega arith)))
        (rw shift here) in
    ground (arith, eq, ne, start, shift, later)
  where
    move :
        (j : ℕ)
        → ((q : Option Ptr) × (get_elem? slot (i + suc j) ≡ some q) × (same q p ≡ false))
        → (q : Option Ptr) × (get_elem? slot (i + 1 + j) ≡ some q) × (same q p ≡ false)
    move j (q, e, ne) = let shift : i + 1 + j ≡ i + suc j = omega arith in (q, rw shift e, ne)

-- Removing the last member but one, which is in no slot before its own, leaves its freed address in
-- its slot, which is then the last one counted, and the last member is no longer counted.
pub remove-keeps_freed :
    (p : Ptr) (s : Slots)
    → 2 ≤ s.count
    → s.count ≤ max_slots
    → ((j : ℕ)
        → j + 1 < s.count
        → (q : Option Ptr) × (get_elem? s.slot j ≡ some q) × (same q p ≡ false))
    → get_elem? s.slot (s.count - 1) ≡ some (some p)
    → (s' : Slots) × (remove s.count p s ≡ done s')
      × (get_elem? s'.slot s'.count ≡ some (some p))
      × (s'.freed ≡ p ∷ s.freed)
unfolding remove same
remove-keeps_freed p s two many before here =
    let found =
      find-at s.count 0 (s.count - 1) p s.slot (omega arith)
        (λ j lt. start j (before j (omega arith))) (first here) in
    let here' : 0 + (s.count - 1) ≡ s.count - 1 = omega arith in
    let last : s.count - 1 + 1 ≡ s.count = omega arith in
    (
      record { count = s.count - 1; slot = s.slot; freed = p ∷ s.freed },
      ground (arith, found, here, here', last),
      here,
      refl,
    )
  where
    first :
        get_elem? s.slot (s.count - 1) ≡ some (some p)
        → get_elem? s.slot (0 + (s.count - 1)) ≡ some (some p)
    first e = let z : 0 + (s.count - 1) ≡ s.count - 1 = omega arith in rw z e

    start :
        (j : ℕ)
        → ((q : Option Ptr) × (get_elem? s.slot j ≡ some q) × (same q p ≡ false))
        → (q : Option Ptr) × (get_elem? s.slot (0 + j) ≡ some q) × (same q p ≡ false)
    start j (q, e, ne) = let z : 0 + j ≡ j = omega arith in (q, rw z e, ne)
