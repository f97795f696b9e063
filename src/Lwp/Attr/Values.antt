-- ===== src/Lwp/Attr/Values.antt =====
-- `lwp_get_attr_value` finds the value that stands at the place of the attribute.
use lielas.Base.{
  ℕ, zero, suc, ◌+◌, ◌≤◌, ◌<◌, ◌≡◌, refl, ap, ◌∙◌, true, false, some, List, [], ◌∷◌, ◌++◌, arith,
  Bytes, length, take, set, drop, All, str_eq, str_eq_refl, append_assoc, length-append, length-set,
  done, fault, ◌>>=◌,
}
use lielas.Lwp.Wkc.{Resource}
use lielas.Lwp.Attr.{is_sep, find_rank, skip_values, copy_value, finish_value, get_attr_value}

-- No byte of the value ends it.
abbrev pub IsPlain : Bytes → Type 0
IsPlain v = All (λ c. is_sep c ≡ false) v

-- The answer of a device: each value with a tab behind it.
unfoldable pub join : List Bytes → Bytes
join [] = []
join (v ∷ vs) = v ++ b'\t' ∷ join vs

skip_plain :
    (size rank : ℕ) (v rest : Bytes) (pos : ℕ)
    → IsPlain v
    → pos + length v + 1 < size
    → skip_values size (suc rank) pos (v ++ b'\t' ∷ rest)
      ≡ skip_values size rank (pos + (length v + 1)) rest
unfolding skip_values
skip_plain size rank [] rest pos plain fits = ground arith
skip_plain size rank (c ∷ v) rest pos plain fits =
    let shift : pos + 1 + (length v + 1) ≡ pos + (length (c ∷ v) + 1) = omega arith in
    rw (← shift)
      (ground (arith, plain.0, skip_plain size rank v rest (pos + 1) plain.1 (omega arith)))

-- Skipping the values of `vs` leads to what follows them.
skip-join :
    (size : ℕ) (vs : List Bytes) (rest : Bytes) (pos : ℕ)
    → All IsPlain vs
    → pos + length (join vs) < size
    → skip_values size (length vs) pos (join vs ++ rest)
      ≡ done (some (pos + length (join vs), rest))
unfolding join skip_values
skip-join size [] rest pos plain fits = let here : pos + 0 ≡ pos = omega arith in rw here
skip-join size (v ∷ vs) rest pos plain fits =
    let len = length-append v (b'\t' ∷ join vs) in
    let shift : pos + (length v + 1) + length (join vs) ≡ pos + length (join (v ∷ vs)) =
      omega (arith, len) in
    rw (append_assoc) (
      skip_plain size (length vs) v (join vs ++ rest) pos plain.0 (omega (arith, len))
      ∙ skip-join size vs rest (pos + (length v + 1)) plain.1 (omega (arith, len))
      ∙ ap (λ p. done (some (p, rest))) shift)

-- The buffer with `v` and a zero written from `i` on.
unfoldable pub fill : ℕ → Bytes → Bytes → Bytes
fill i [] val = set val i 0
fill i (c ∷ v) val = fill (i + 1) v (set val i c)

copy-fill :
    (i : ℕ) (v rest val : Bytes) (sep : ℕ)
    → IsPlain v
    → is_sep sep ≡ true
    → i + length v ≤ length val
    → (val' : Bytes) × (copy_value i (v ++ sep ∷ rest) val ≡ done (i + length v, val'))
      × (set val' (i + length v) 0 ≡ fill i v val)
      × (length val' ≡ length val)
unfolding copy_value fill
copy-fill i [] rest val sep plain stop fits =
    let here : i + 0 ≡ i = omega arith in (val, rw (here, stop, copy_value) refl, rw here, refl)
copy-fill i (c ∷ v) rest val sep plain stop fits =
    let len = length-set val i c in
    let (val', e, filled, same) =
      copy-fill (i + 1) v rest (set val i c) sep plain.1 stop (omega (arith, len)) in
    let shift : i + 1 + length v ≡ i + suc (length v) = omega arith in
    (val', ground (arith, plain.0, e, shift), rw (← shift) filled, same ∙ len)

set_split :
    (val : Bytes) (i c : ℕ) → i < length val → set val i c ≡ take i val ++ c ∷ drop (suc i) val
set_split [] i c h = elim h [ ]
set_split (x ∷ val) zero c h = refl
set_split (x ∷ val) (suc i) c h = ap (◌∷◌ x) (set_split val i c (omega arith))

take-set :
    (val : Bytes) (i c : ℕ) → i < length val → take (suc i) (set val i c) ≡ take i val ++ c ∷ []
take-set [] i c h = elim h [ ]
take-set (x ∷ val) zero c h = refl
take-set (x ∷ val) (suc i) c h = ap (◌∷◌ x) (take-set val i c (omega arith))

drop-set : (val : Bytes) (i k c : ℕ) → i < k → drop k (set val i c) ≡ drop k val
drop-set [] i k c h = refl
drop-set (x ∷ val) zero (suc k) c h = refl
drop-set (x ∷ val) (suc i) (suc k) c h = drop-set val i k c (omega arith)
drop-set (x ∷ val) i zero c h = absurd (omega arith)

fill_split :
    (i : ℕ) (v val : Bytes)
    → i + length v < length val
    → fill i v val ≡ take i val ++ (v ++ 0 ∷ drop (suc (i + length v)) val)
unfolding fill
fill_split i [] val h =
    let here : i + 0 ≡ i = omega arith in rw here (set_split val i 0 (omega arith))
fill_split i (c ∷ v) val h =
    let next : i + 1 ≡ suc i = omega arith in
    let shift : suc i + length v ≡ i + suc (length v) = omega arith in
    let len = length-set val i c in
    rw next (
      fill_split (suc i) v (set val i c) (omega (arith, len))
      ∙ rw (
        take-set val i c (omega arith),
        drop-set val i (suc (suc i + length v)) c (omega arith),
        append_assoc,
        shift,
      ))

find_rank-before :
    (count : ℕ) (names more : List Bytes) (name : Bytes)
    → All (λ a. str_eq a name ≡ false) names
    → length names < count
    → find_rank count (names ++ name ∷ more) name ≡ some (length names)
unfolding find_rank
find_rank-before zero names more name other h = elim h [ ]
find_rank-before (suc count) [] more name other h = rw (str_eq_refl name)
find_rank-before (suc count) (a ∷ names) more name other h =
    rw (other.0, find_rank-before count names more name other.1 (omega arith))

copy_overflow :
    (i : ℕ) (v rest val : Bytes)
    → IsPlain v
    → i ≤ length val
    → length val < i + length v
    → copy_value i (v ++ rest) val ≡ fault
unfolding copy_value
copy_overflow i [] rest val plain room long = absurd (omega arith)
copy_overflow i (c ∷ v) rest val plain room long =
    let len = length-set val i c in
    ground (
      arith,
      plain.0,
      λ (h : i < length val).
          copy_overflow (i + 1) v rest (set val i c) plain.1 (omega (arith, len))
            (omega (arith, len)),
    )

-- The attribute is the first of its name in the description, and stands behind `before`.
pub record Placed (res : Resource) (name : Bytes) (before : List Bytes) : Type 0 where
  pub names : List Bytes
  pub more : List Bytes
  pub slots : res.attr ≡ names ++ name ∷ more
  pub counted : length names < res.attributes
  pub other : All (λ a. str_eq a name ≡ false) names
  pub same_place : length names ≡ length before

module _ {res : Resource} {name : Bytes} {before : List Bytes} (p : Placed res name before) where
  reach :
      (v rest val : Bytes) (size : ℕ)
      → All IsPlain before
      → length (join before) < size
      → get_attr_value (join before ++ (v ++ rest)) res name val size
        ≡ (copy_value 0 (v ++ rest) val >>= finish_value size (length (join before)))
  unfolding get_attr_value
  reach v rest val size plain short =
      let pos = length (join before) in
      let ranked : find_rank res.attributes res.attr name ≡ some (length before) =
        ap (λ l. find_rank res.attributes l name) p.slots
        ∙ find_rank-before res.attributes p.names p.more name p.other p.counted
        ∙ ap some p.same_place in
      let skipped = skip-join size before (v ++ rest) 0 plain (omega arith) in
      let start : 0 + pos ≡ pos = omega arith in ground (arith, ranked, skipped, start)

  -- The value of an attribute that is first of its name in the resource and stands behind as many
  -- values as attributes come before it is copied into the buffer with a zero behind it, the rest
  -- of the buffer stays as it was, and 0 is returned; the value fits the buffer and its end lies
  -- below the limit.
  pub get_attr_value-value :
      (v rest val : Bytes) (sep size : ℕ)
      → All IsPlain before
      → IsPlain v
      → is_sep sep ≡ true
      → length (join before) + length v < size
      → length v < length val
      → get_attr_value (join before ++ (v ++ sep ∷ rest)) res name val size
        ≡ done (false, v ++ 0 ∷ drop (suc (length v)) val)
  unfolding finish_value
  get_attr_value-value v rest val sep size plain plain_v stop short fits =
      let n = length v in
      let (val', e, filled, same) = copy-fill 0 v rest val sep plain_v stop (omega arith) in
      let start : 0 + n ≡ n = omega arith in
      let whole = fill_split 0 v val (omega arith) in
      let filled' = rw start at filled in
      let whole' = rw start at whole in
      reach v (sep ∷ rest) val size plain (omega arith)
      ∙ rw (e, start) (ground (arith, filled', whole'))

  -- A value that is longer than the buffer, and starts below the limit, is written beyond the end
  -- of the buffer, whatever the limit is.
  pub get_attr_value_overflow :
      (v rest val : Bytes) (size : ℕ)
      → All IsPlain before
      → IsPlain v
      → length (join before) < size
      → length val < length v
      → get_attr_value (join before ++ (v ++ rest)) res name val size ≡ fault
  get_attr_value_overflow v rest val size plain plain_v short long =
      reach v rest val size plain short
      ∙ rw (copy_overflow 0 v rest val plain_v (omega arith) (omega arith))
