-- ===== src/Tests/Device.antt =====
-- Members of a module or a device.
use lielas.Base.{
  ℕ, ◌≡◌, refl, ◌<◌, ◌+◌, false, Option, none, some, List, [], ◌∷◌, replicate, get_elem?, arith,
  zero, suc,
}
use lielas.Device.Slots.{Ptr, Slots, same}

-- Members at the addresses 101 and 102, at the indices 1 and 2.
abbrev two : Slots
two = record { count = 2; slot = none ∷ some 101 ∷ some 102 ∷ replicate 17 none; freed = [] }

abbrev left : List (Option Ptr)
left = replicate 19 (some 7)

others_of_two :
    (j : ℕ) → j + 1 < 2 → (q : Option Ptr) × (get_elem? two.slot j ≡ some q) × (same q 101 ≡ false)
unfolding same
others_of_two zero lt = (none, refl, refl)
others_of_two (suc j) lt = absurd (omega arith)
