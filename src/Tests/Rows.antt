-- ===== src/Tests/Rows.antt =====
-- Decimal numbers, and a server that holds the rows of tables by their ids.
use lielas.Base.{
  ℕ, zero, suc, ◌+◌, ◌*◌, ◌-◌, ◌/◌, ◌%◌, ◌^◌, ◌<◌, ◌≡◌, refl, ap, false, ◌&&◌, Option, none, some,
  List, [], ◌∷◌, ◌++◌, All, Bytes, ltb, ◌==◌, arith, if◌then◌else◌, str_eq, str_eq_refl, str_eq_iff,
  codes, length, length-append, replicate, Bool-cases, inl, inr,
}
use lielas.Sql.{
  Value, text, number, Statement, select, last_id, insert, update, Answer, tuples, command_ok,
  failed, Server,
}
use lielas.Device.Container.Saving.{Library}
use lielas.Device.Container.Saving.Rows.{
  Row, row_of, values, literal, id_limit, IsLibrary, HasRows, AreApart,
}

-- The digits of a number, at most `fuel + 1` of them.
unfoldable pub decimal : ℕ → ℕ → Bytes
decimal zero n = (48 + n % 10) ∷ []
decimal (suc fuel) n =
    let more = decimal fuel (n / 10) in
    if ltb n 10 then (48 + n) ∷ [] else more ++ (48 + n % 10) ∷ []

unfoldable pub read_from : ℕ → Bytes → ℕ
read_from acc [] = acc
read_from acc (ch ∷ chs) = read_from (10 * acc + (ch - 48)) chs

read_from-snoc :
    (acc : ℕ) (t : Bytes) (ch : ℕ) → read_from acc (t ++ ch ∷ []) ≡ 10 * read_from acc t + (ch - 48)
unfolding read_from
read_from-snoc acc [] ch = refl
read_from-snoc acc (x ∷ t) ch = read_from-snoc (10 * acc + (x - 48)) t ch

read_from-decimal : (fuel n : ℕ) → n < 10 ^ (suc fuel) → read_from 0 (decimal fuel n) ≡ n
unfolding read_from decimal
read_from-decimal zero n small = omega arith
read_from-decimal (suc fuel) n small =
    let power : 10 ^ suc (suc fuel) ≡ 10 * 10 ^ suc fuel = omega arith in
    let ih = read_from-decimal fuel (n / 10) (omega (arith, small, power)) in
    ground (arith, read_from-snoc 0 (decimal fuel (n / 10)) (48 + n % 10), ih)

decimal_some : (fuel n : ℕ) → 0 < length (decimal fuel n)
unfolding decimal
decimal_some zero n = omega arith
decimal_some (suc fuel) n =
    ground (arith, length-append (decimal fuel (n / 10)) ((48 + n % 10) ∷ []))

decimal_short : (fuel n : ℕ) → length (decimal fuel n) < fuel + 2
unfolding decimal
decimal_short zero n = omega arith
decimal_short (suc fuel) n =
    let ih = decimal_short fuel (n / 10) in
    ground (arith, length-append (decimal fuel (n / 10)) ((48 + n % 10) ∷ []), ih)

abbrev AreDigits : Bytes → Type 0
AreDigits t = All (λ ch. (b'0' < suc ch) × (ch < b':')) t

AreDigits-append : (s t : Bytes) → AreDigits s → AreDigits t → AreDigits (s ++ t)
AreDigits-append [] t p q = q
AreDigits-append (ch ∷ s) t (here, p) q = (here, AreDigits-append s t p q)

decimal-AreDigits : (fuel n : ℕ) → AreDigits (decimal fuel n)
unfolding decimal
decimal-AreDigits zero n = ((omega arith, omega arith), tt)
decimal-AreDigits (suc fuel) n = elim (Bool-cases (ltb n 10)) [
  | inl one ↦
      let less : n < 10 = ground (arith, one) in
      rw (one, decimal) ((omega arith, omega (arith, less)), tt)
  | inr more ↦
      rw (more, decimal)
        (AreDigits-append (decimal fuel (n / 10)) _ (decimal-AreDigits fuel (n / 10))
          ((omega arith, omega arith), tt))
]

-- The texts of real numbers are their own values.
abbrev pub library : Library Bytes
library = record {
  atoi = read_from 0;
  strtod = λ t. t;
  show = decimal 8;
  show_real = λ t. t;
  equal = str_eq;
  malloc = λ i. some (500 + i);
  left = λ p. replicate 19 none;
  left_pint = λ p. [];
  left_aint = λ p. [];
}

pub library-IsLibrary : IsLibrary library
library-IsLibrary = record {
  atoi-show = λ n small. read_from-decimal 8 n (omega arith);
  show_some = decimal_some 8;
  show_short = λ n small. decimal_short 8 n;
  show_digits = decimal-AreDigits 8;
}

pub record Tables : Type 0 where
  pub stored : (table id : Bytes) → Option Row
  pub last : Bytes → ℕ

-- There is no row above the last id.
abbrev pub row_at : Bytes → Bytes → Tables → Option Row
row_at t i d = if ltb (d.last t) (read_from 0 i) then none else d.stored t i

abbrev put_row : Bytes → Bytes → Row → ℕ → Tables → Tables
put_row t i f n d = record {
  stored = λ u j. if str_eq u t && str_eq j i then some f else row_at u j d;
  last = λ u. if str_eq u t then n else d.last u;
}

abbrev change : (t col val i : Bytes) → Option Row → Tables → Answer × Tables
change t col val i none d = (command_ok, d)
change t col val i (some f) d =
    (command_ok, put_row t i (λ x. if str_eq x col then val else f x) (d.last t) d)

abbrev pub execute : Statement → Tables → Answer × Tables
execute (select cols t i) d =
    (tuples cols (elim (row_at t i d) [ none ↦ [] | some f ↦ values f cols ∷ [] ]), d)
execute (last_id t) d =
    (tuples (codes "id" ∷ []) (if d.last t == 0 then [] else (decimal 8 (d.last t) ∷ []) ∷ []), d)
execute (insert t []) d = (failed, d)
execute (insert t ((col, val) ∷ fields)) d =
    if ltb (d.last t) (read_from 0 (literal val))
    then (
      command_ok,
      put_row t (literal val) (row_of ((col, val) ∷ fields)) (read_from 0 (literal val)) d,
    )
    else (failed, d)
execute (update t col (text val) i) d = change t col val i (row_at t i d) d
execute _ d = (failed, d)

abbrev pub server : Server
server = record { Db = Tables; exec = execute }

insert_row :
    (t i : Bytes) (n : ℕ) (f : Row) (d : Tables)
    → read_from 0 i ≡ n
    → d.last t < n
    → (row_at t i (put_row t i f n d) ≡ some f)
      × ((u j : Bytes) → AreApart u j t i → row_at u j (put_row t i f n d) ≡ row_at u j d)
      × ((put_row t i f n d).last t ≡ n)
      × ((u : Bytes) → str_eq u t ≡ false → (put_row t i f n d).last u ≡ d.last u)
insert_row t i n f d e above = (
  ground (arith, str_eq_refl t, str_eq_refl i, e),
  λ u j a. ground (arith, a, str_eq_iff u t, e, above),
  ground (arith, str_eq_refl t),
  λ u ne. rw ne refl,
)

update_row :
    (t i : Bytes) (f g : Row) (d : Tables)
    → row_at t i d ≡ some f
    → (row_at t i (put_row t i g (d.last t) d) ≡ some g)
      × ((u j : Bytes) → AreApart u j t i → row_at u j (put_row t i g (d.last t) d) ≡ row_at u j d)
      × ((u : Bytes) → (put_row t i g (d.last t) d).last u ≡ d.last u)
update_row t i f g d there = (
  ground (arith, str_eq_refl t, str_eq_refl i, there),
  λ u j a. ground (arith, a, str_eq_iff u t),
  λ u. ground (arith, str_eq_iff u t),
)

pub above_last_lem :
    (t : Bytes) (n : ℕ) (d : Tables) → d.last t < n → n < id_limit → row_at t (decimal 8 n) d ≡ none
above_last_lem t n d above small = ground (arith, above, read_from-decimal 8 n (omega arith))

pub inserted_lem :
    (t : Bytes) (n : ℕ) (fields : List (Bytes × Value)) (d : Tables)
    → d.last t < n
    → n < id_limit
    → let all = (codes "id", number (decimal 8 n)) ∷ fields in
      (d' : Tables) × (execute (insert t all) d ≡ (command_ok, d'))
      × (row_at t (decimal 8 n) d' ≡ some (row_of all))
      × ((u i : Bytes) → AreApart u i t (decimal 8 n) → row_at u i d' ≡ row_at u i d)
      × (d'.last t ≡ n)
      × ((u : Bytes) → str_eq u t ≡ false → d'.last u ≡ d.last u)
inserted_lem t n fields d above small =
    let e = read_from-decimal 8 n (omega arith) in
    let f = row_of ((codes "id", number (decimal 8 n)) ∷ fields) in
    let (row, others, last, lasts) = insert_row t (decimal 8 n) n f d e above in
    (put_row t (decimal 8 n) f n d, ground (arith, e, above), row, others, last, lasts)

pub updated_lem :
    (t col val i : Bytes) (f : Row) (d : Tables)
    → row_at t i d ≡ some f
    → (d' : Tables) × (execute (update t col (text val) i) d ≡ (command_ok, d'))
      × (row_at t i d' ≡ some (λ x. if str_eq x col then val else f x))
      × ((u j : Bytes) → AreApart u j t i → row_at u j d' ≡ row_at u j d)
      × ((u : Bytes) → d'.last u ≡ d.last u)
updated_lem t col val i f d there =
    let g : Row = λ x. if str_eq x col then val else f x in
    let (row, others, lasts) = update_row t i f g d there in
    (put_row t i g (d.last t) d, ap (λ o. change t col val i o d) there, row, others, lasts)

unfoldable pub server-HasRows : HasRows library server
server-HasRows = record {
  row = row_at;
  last = λ t d. d.last t;
  selected = λ cols t i d. refl;
  last_selected = λ t d. refl;
  above_last = above_last_lem;
  inserted = λ t n fields d above small plain. inserted_lem t n fields d above small;
  updated = λ t col val i f d there plain. updated_lem t col val i f d there;
}
