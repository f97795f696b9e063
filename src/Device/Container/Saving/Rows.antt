-- ===== src/Device/Container/Saving/Rows.antt =====
-- What the statements of the saving do to the rows of the tables.
use lielas.Base.{
  ℕ, suc, ◌+◌, ◌<◌, ◌≡◌, ◌≢◌, ◌∙◌, refl, true, false, ◌&&◌, Option, none, some, List, [], ◌∷◌, ◌++◌,
  All, Bytes, ◌==◌, arith, ltb, codes, if◌then◌else◌, str_eq, str_eq_iff, length, Bool-cases, inl,
  inr, done,
}
use lielas.Sql.{
  Value, text, number, name, insert, select, update, last_id, tuples, command_ok, Server,
}
use lielas.Device.Container.Loading.{semicolon}
use lielas.Device.Container.Saving.{Library, client_size, new_id}
use lielas.Device.Container.Saving.Updated.{extended, append_id, save_member}

abbrev pub Row : Type 0
Row = Bytes → Bytes

abbrev pub literal : Value → Bytes
literal (text t) = t
literal (number t) = t
literal (name t) = t

-- A row that is made of these values; the other columns have none.
unfoldable pub row_of : List (Bytes × Value) → Row
row_of [] x = []
row_of ((col, v) ∷ fields) x = if str_eq x col then literal v else row_of fields x

abbrev pub values : Row → List Bytes → List Bytes
values f [] = []
values f (x ∷ xs) = f x ∷ values f xs

abbrev pub IsQuotable : Bytes → Type 0
IsQuotable t = All (λ ch. ch ≢ b'\'') t

abbrev pub AreQuotable : List (Bytes × Value) → Type 0
AreQuotable fields = All (λ p. IsQuotable (literal p.1)) fields

-- The greatest id that has nine digits at most.
abbrev pub id_limit : ℕ
id_limit = 1000000000

-- Two rows differ in their table or in their id.
abbrev pub AreApart : (t i u j : Bytes) → Type 0
AreApart t i u j = (str_eq t u && str_eq i j) ≡ false

-- What is documented of the numbers that are printed.
pub record IsLibrary {Real : Type 0} (c : Library Real) : Type 0 where
  pub atoi-show : (n : ℕ) → n < id_limit → c.atoi (c.show n) ≡ n
  pub show_some : (n : ℕ) → 0 < length (c.show n)
  pub show_short : (n : ℕ) → n < id_limit → length (c.show n) < 10
  pub show_digits : (n : ℕ) → All (λ ch. (b'0' < suc ch) × (ch < b':')) (c.show n)

-- What SQL documents of the statements, by the row of an id and the greatest id of a table. It is
-- used on the tables of the devices, of the modules and of the channels alone, where each column is
-- taken as a text. In the first of them the column registered is a truth value and is read back as
-- t or f, which the load compares with nothing.
pub record HasRows {Real : Type 0} (c : Library Real) (v : Server) : Type 0 where
  pub row : (table id : Bytes) → v.Db → Option Row
  pub last : (table : Bytes) → v.Db → ℕ
  pub selected :
      (cols : List Bytes) (t i : Bytes) (d : v.Db)
      → v.exec (select cols t i) d
        ≡ (tuples cols (elim (row t i d) [ none ↦ [] | some f ↦ values f cols ∷ [] ]), d)
  pub last_selected :
      (t : Bytes) (d : v.Db)
      → v.exec (last_id t) d ≡ (
        tuples (codes "id" ∷ []) (if last t d == 0 then [] else (c.show (last t d) ∷ []) ∷ []),
        d,
      )
  pub above_last :
      (t : Bytes) (n : ℕ) (d : v.Db) → last t d < n → n < id_limit → row t (c.show n) d ≡ none
  pub inserted :
      (t : Bytes) (n : ℕ) (fields : List (Bytes × Value)) (d : v.Db)
      → last t d < n
      → n < id_limit
      → AreQuotable fields
      → let all = (codes "id", number (c.show n)) ∷ fields in
        (d' : v.Db) × (v.exec (insert t all) d ≡ (command_ok, d'))
        × (row t (c.show n) d' ≡ some (row_of all))
        × ((u i : Bytes) → AreApart u i t (c.show n) → row u i d' ≡ row u i d)
        × (last t d' ≡ n)
        × ((u : Bytes) → str_eq u t ≡ false → last u d' ≡ last u d)
  pub updated :
      (t col val i : Bytes) (f : Row) (d : v.Db)
      → row t i d ≡ some f
      → IsQuotable val
      → (d' : v.Db) × (v.exec (update t col (text val) i) d ≡ (command_ok, d'))
        × (row t i d' ≡ some (λ x. if str_eq x col then val else f x))
        × ((u j : Bytes) → AreApart u j t i → row u j d' ≡ row u j d)
        × ((u : Bytes) → last u d' ≡ last u d)

-- A row whose column `col` is `text` and whose other columns are those of `base`.
abbrev pub IsRow : (col joined : Bytes) → (base f : Row) → Type 0
IsRow col joined base f = (f col ≡ joined) × ((x : Bytes) → str_eq x col ≡ false → f x ≡ base x)

module _ {Real : Type 0} (c : Library Real) (v : Server) (lib : IsLibrary c) (h : HasRows c v) where
  open h use {row, last, selected, last_selected, above_last, inserted, updated}

  abbrev Db : Type 0
  Db = v.Db

  pub show-IsQuotable : (n : ℕ) → IsQuotable (c.show n)
  show-IsQuotable n = go (c.show n) (lib.show_digits n)
    where
      go : (t : Bytes) → All (λ ch. (b'0' < suc ch) × (ch < b':')) t → IsQuotable t
      go [] q = tt
      go (ch ∷ t) ((low, high), q) = ((λ e. absurd (omega (arith, low, e))), go t q)

  -- A row that is there is another one than a row that is not.
  pub apart :
      (t i u j : Bytes) (f : Row) (d : Db)
      → row t i d ≡ some f
      → row u j d ≡ none
      → AreApart t i u j
  apart t i u j f d there absent = elim (Bool-cases (str_eq t u && str_eq i j)) [
    | inl same ↦ ground (arith, str_eq_iff t u, str_eq_iff i j, same, there, absent)
    | inr other ↦ other
  ]

  pub new_id-last : (t : Bytes) (d : Db) → last t d < id_limit → new_id c v t d ≡ (last t d + 1, d)
  unfolding new_id
  new_id-last t d small = elim (Bool-cases (last t d == 0)) [
    | inl zero_last ↦
        let none_yet : last t d ≡ 0 = ground (arith, zero_last) in
        ground (arith, last_selected t d, zero_last, none_yet)
    | inr some_last ↦ ground (arith, last_selected t d, some_last, lib.atoi-show (last t d) small)
  ]

  append_id-row :
      (t col pid id : Bytes) (f : Row) (d : Db)
      → row t pid d ≡ some f
      → length (f col) < client_size
      → IsQuotable (extended (f col) id)
      → (d' : Db) × (append_id c v t col pid id d ≡ done (false, d'))
        × (row t pid d' ≡ some (λ x. if str_eq x col then extended (f col) id else f x))
        × ((u j : Bytes) → AreApart u j t pid → row u j d' ≡ row u j d)
        × ((u : Bytes) → last u d' ≡ last u d)
  unfolding append_id
  append_id-row t col pid id f d there short plain =
      let (d', ran, row', others, lasts) =
        updated t col (extended (f col) id) pid f d there plain in
      let fits : ltb (length (f col)) client_size ≡ true = ground (arith, short) in
      (d', ground (arith, selected (col ∷ []) t pid d, there, ran, fits), row', others, lasts)

  IsQuotable-append : (s t : Bytes) → IsQuotable s → IsQuotable t → IsQuotable (s ++ t)
  IsQuotable-append [] t p q = q
  IsQuotable-append (ch ∷ s) t (here, p) q = (here, IsQuotable-append s t p q)

  pub extended-IsQuotable :
      (s id : Bytes) → IsQuotable s → IsQuotable id → IsQuotable (extended s id)
  unfolding extended
  extended-IsQuotable [] id p q = q
  extended-IsQuotable (b ∷ bs) id p q =
      IsQuotable-append (b ∷ bs) (semicolon ∷ id) p ((λ e. absurd (omega (arith, e))), q)

  -- A member gets the id behind the last one of its table, and the column of the parent lists it
  -- behind the others; no other row changes.
  pub save_member-row :
      (t : Bytes) (fields : List (Bytes × Value)) (parent col pid : Bytes) (f : Row) (d : Db)
      → let n = last t d + 1 in
        let all = (codes "id", number (c.show n)) ∷ fields in
        n < id_limit
        → AreQuotable fields
        → str_eq parent t ≡ false
        → row parent pid d ≡ some f
        → length (f col) < client_size
        → IsQuotable (f col)
        → (d' : Db) × (save_member c v t fields parent col pid d ≡ done (false, n, d'))
          × (row t (c.show n) d' ≡ some (row_of all))
          × (row parent pid d'
              ≡ some (λ x. if str_eq x col then extended (f col) (c.show n) else f x))
          × ((u j : Bytes) (g : Row)
              → row u j d ≡ some g
              → AreApart u j parent pid
              → row u j d' ≡ some g)
          × (last t d' ≡ n)
          × ((u : Bytes) → str_eq u t ≡ false → last u d' ≡ last u d)
  unfolding save_member
  save_member-row t fields parent col pid f d small plain other there short plain_column =
      let n = last t d + 1 in
      let new = new_id-last t d (omega (arith, small)) in
      let (d₁, wrote, made, others, last_t, lasts) =
        inserted t n fields d (omega arith) small plain in
      let apart_parent : AreApart parent pid t (c.show n) = rw other refl in
      let there₁ = others parent pid apart_parent ∙ there in
      let (d₂, appended, listed, kept, same_last) =
        append_id-row parent col pid (c.show n) f d₁ there₁ short
          (extended-IsQuotable (f col) (c.show n) plain_column (show-IsQuotable n)) in
      let child_apart : AreApart t (c.show n) parent pid =
        ground (arith, str_eq_iff t parent, str_eq_iff parent t, other) in
      (
        d₂,
        ground (arith, new, wrote, appended),
        kept t (c.show n) child_apart ∙ made,
        listed,
        λ u j g g_there apart_g.
            kept u j apart_g
            ∙ others u j (apart u j t (c.show n) g d g_there (above_last t n d (omega arith) small))
            ∙ g_there,
        same_last t ∙ last_t,
        λ u ne. same_last u ∙ lasts u ne,
      )
