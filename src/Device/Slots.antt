-- ===== src/Device/Slots.antt =====
-- The array of pointers and its count, as `LaddChannel` (modul.c), `LaddModul` (device.c) and the
-- two functions that remove handle it. The members stand from index 1 on; the array of 20 slots is
-- modelled with the code's index arithmetic, and an access outside of it is a fault.
pub mod Members
use lielas.Base.{
  ℕ, zero, suc, ◌+◌, ◌-◌, Bool, true, false, ◌&&◌, Option, none, some, List, [], ◌∷◌, ◌==◌, leb,
  ltb, if◌then◌else◌, get_elem?, set, length, Run, done, fault, out_of_fuel, ◌>>=◌,
}

-- An address of a module or a channel.
abbrev pub Ptr : Type 0
Ptr = ℕ

-- `MAX_CHANNELS` and `MAX_MODULS` are both 20.
abbrev pub max_slots : ℕ
max_slots = 20

-- `channels` and `channel[]`, or `moduls` and `modul[]`, with the addresses that were freed. A slot
-- is `none` for a null pointer.
pub record Slots : Type 0 where
  pub count : ℕ
  pub slot : List (Option Ptr)
  pub freed : List Ptr

unfoldable pub write_slot : ℕ → Option Ptr → Slots → Run Slots
write_slot i p s =
    if ltb i (length s.slot) then done (record s { slot = set s.slot i p }) else fault

-- `LaddChannel`, `LaddModul`. The test behind the count is true after every addition, so a null
-- pointer is always written behind the new member.
unfoldable pub add : Ptr → Slots → Run Slots
add p s =
    if s.count == max_slots
    then done s
    else (write_slot (s.count + 1) (some p) s >>= λ s₁.
        let s₂ = record s₁ { count = s₁.count + 1 } in
        if leb s₂.count max_slots then write_slot (s₂.count + 1) none s₂ else done s₂)

unfoldable pub same : Option Ptr → Ptr → Bool
same none p = false
same (some q) p = q == p

-- The search of `LremoveChannel`: the index where it stops, from `i` on, with `limit` rounds left.
unfoldable pub find : ℕ → ℕ → Ptr → List (Option Ptr) → Run ℕ
unfolding same
find zero i p slot = done i
find (suc limit) i p slot = elim (get_elem? slot i) [
  | none ↦ fault
  | some q ↦ let rest = find limit (i + 1) p slot in if same q p then done i else rest
]

-- `for(i = from; i < count; i++) slot[i] = slot[i+1]`, with `rounds` rounds left.
unfoldable pub shift_down : ℕ → ℕ → List (Option Ptr) → Run (List (Option Ptr))
shift_down zero i slot = done slot
shift_down (suc rounds) i slot = elim (get_elem? slot (i + 1)) [
  | none ↦ fault
  | some q ↦ shift_down rounds (i + 1) (set slot i q)
]

-- `LremoveChannel` with `bound` the count of channels, which bounds the search. `LremoveModul` is
-- the same code, bounded by the count of the channels of the module that is removed. With no member
-- the first slot is a null pointer and nothing is found, so the count does not fall below zero.
unfoldable pub remove : ℕ → Ptr → Slots → Run Slots
unfolding same
remove bound p s = find (if leb bound max_slots then bound else max_slots) 0 p s.slot >>= λ i.
    elim (get_elem? s.slot i) [
      | none ↦ fault
      | some q ↦
          if same q p
          then ((if i + 1 == s.count then done s.slot else shift_down (s.count - i) i s.slot)
              >>= λ slot'. done (record { count = s.count - 1; slot = slot'; freed = p ∷ s.freed }))
          else done s
    ]
