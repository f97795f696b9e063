-- ===== src/Lwp/Attr.antt =====
-- `lwp_get_attr_value` of lwp.c: the value of an attribute in the answer of a device. The values
-- stand in the order of the attributes, each ended by a tab, a newline or the zero byte. `str` is
-- the whole object that the C pointer points into, and `val` the whole buffer for the value; a read
-- or write outside of these is a fault.
pub mod Values
use lielas.Base.{
  ℕ, zero, suc, ◌+◌, Bool, true, false, ◌||◌, Option, none, some, List, [], ◌∷◌, Bytes, ◌==◌, leb,
  ltb, if◌then◌else◌, str_eq, length, set, Run, done, fault, out_of_fuel, ◌>>=◌,
}
use lielas.Lwp.Wkc.{Resource}

abbrev pub is_sep : ℕ → Bool
is_sep c = c == b'\t' || c == b'\n' || c == 0

-- The place of an attribute among the first `count` slots.
unfoldable pub find_rank : ℕ → List Bytes → Bytes → Option ℕ
find_rank zero slots name = none
find_rank (suc count) [] name = none
find_rank (suc count) (a ∷ slots) name =
    let later = find_rank count slots name in
    if str_eq a name then some 0 else elim later [ none ↦ none | some r ↦ some (suc r) ]

-- Skips `rank` values; `none` where the position reaches `size`. The position is counted, and the
-- text from there on is kept.
unfoldable pub skip_values : ℕ → ℕ → ℕ → Bytes → Run (Option (ℕ × Bytes))
skip_values size zero pos s = done (some (pos, s))
skip_values size (suc rank) pos [] = fault
skip_values size (suc rank) pos (c ∷ s) =
    let next = skip_values size (if is_sep c then rank else suc rank) (pos + 1) s in
    if leb size (pos + 1) then done none else next

-- Copies up to the separator: the count of bytes and the buffer. The test of the C loop, on `pos`,
-- does not change in the loop.
unfoldable pub copy_value : ℕ → Bytes → Bytes → Run (ℕ × Bytes)
copy_value i [] val = fault
copy_value i (c ∷ s) val =
    let next = copy_value (i + 1) s (set val i c) in
    if is_sep c then done (i, val) else if ltb i (length val) then next else fault

abbrev write_at : ℕ → ℕ → Bytes → Bool → Run (Bool × Bytes)
write_at i c val failed = if ltb i (length val) then done (failed, set val i c) else fault

-- What follows the search for the attribute, with the count of bytes copied.
unfoldable pub finish_value : ℕ → ℕ → ℕ × Bytes → Run (Bool × Bytes)
finish_value size pos (i, val) =
    if leb size (pos + i) then write_at 0 0 val true else write_at i 0 val false

-- The Boolean is true where the C function returns -1.
unfoldable pub get_attr_value : Bytes → Resource → Bytes → Bytes → ℕ → Run (Bool × Bytes)
get_attr_value str res attr_name val size = elim (find_rank res.attributes res.attr attr_name) [
  | none ↦ done (true, val)
  | some rank ↦ skip_values size rank 0 str >>= λ found. elim found [
    | none ↦ done (true, val)
    | some (pos, s) ↦
        (if ltb pos size then copy_value 0 s val else done (0, val)) >>= finish_value size pos
  ]
]
