-- ===== src/Device/Container/Loading/Separated.antt =====
-- What is loaded from ids with a semicolon between them.
use lielas.Base.{
  ℕ, ◌+◌, ◌<◌, ◌≡◌, ◌∙◌, refl, ap, Bool, true, false, List, [], ◌∷◌, ◌++◌, append_assoc, append-nil,
  Bytes, ◌==◌, ltb, if◌then◌else◌, length, length-append, All, arith, Run, done, ◌>>=◌,
}
use mathlib.Core.Path.{fun_ext}
use lielas.Device.Container.Loading.{id_size, semicolon, end_id, load_ids}

-- The ids, each with a semicolon before it.
unfoldable pub behind_semicolons : List Bytes → Bytes
behind_semicolons [] = []
behind_semicolons (id ∷ ids) = semicolon ∷ id ++ behind_semicolons ids

-- No byte of an id is a semicolon.
abbrev pub IsPlain : Bytes → Type 0
IsPlain id = All (λ c. (c == semicolon) ≡ false) id

abbrev pub IsId : Bytes → Type 0
IsId id = (0 < length id) × (length id < id_size) × IsPlain id

module _ {S : Type 0} (load : Bytes → S → Run (Bool × S)) where
  -- The ids one after another, until one ends the loop.
  unfoldable pub load_all : List Bytes → S → Run S
  load_all [] s = done s
  load_all (id ∷ ids) s = load id s >>= λ (ended, s'). if ended then done s' else load_all ids s'

  load_ids-last :
      (c : ℕ) (cs id : Bytes) (s : S)
      → IsPlain (c ∷ cs)
      → length id + length (c ∷ cs) < id_size
      → load_ids load (c ∷ cs) id s ≡ end_id load (id ++ c ∷ cs) done s
  unfolding load_ids
  load_ids-last c [] id s (plain, rest) short =
      let room : ltb (length id) id_size ≡ true = ground (arith, short) in rw (plain, room) refl
  load_ids-last c (d ∷ cs) id s (plain, (plain', rest)) short =
      let room : ltb (length id) id_size ≡ true = ground (arith, short) in
      let more =
        load_ids-last d cs (id ++ c ∷ []) s (plain', rest)
          (omega (arith, short, length-append id (c ∷ []))) in
      rw (plain, room, plain', more, append_assoc id (c ∷ []) (d ∷ cs)) refl

  load_ids-next :
      (c : ℕ) (cs more id : Bytes) (s : S)
      → IsPlain (c ∷ cs)
      → length id + length (c ∷ cs) < id_size
      → load_ids load (c ∷ cs ++ semicolon ∷ more) id s
        ≡ end_id load (id ++ c ∷ cs) (load_ids load more []) s
  unfolding load_ids
  load_ids-next c [] more id s (plain, rest) short =
      let room : ltb (length id) id_size ≡ true = ground (arith, short) in rw (plain, room) refl
  load_ids-next c (d ∷ cs) more id s (plain, (plain', rest)) short =
      let room : ltb (length id) id_size ≡ true = ground (arith, short) in
      let next =
        load_ids-next d cs more (id ++ c ∷ []) s (plain', rest)
          (omega (arith, short, length-append id (c ∷ []))) in
      rw (plain, room, plain', next, append_assoc id (c ∷ []) (d ∷ cs)) refl

  end_id-short :
      (id : Bytes) (next : S → Run S) (s : S)
      → length id < id_size
      → end_id load id next s ≡ (load id s >>= λ (ended, s'). if ended then done s' else next s')
  unfolding end_id
  end_id-short id next s short =
      let room : ltb (length id) id_size ≡ true = ground (arith, short) in rw room refl

  -- Ids of one byte at least and nine at most, none of which is a semicolon, with a semicolon
  -- between them: the loop loads them one after another, until one ends it.
  pub load_ids-separated :
      (id : Bytes) (ids : List Bytes) (s : S)
      → All IsId (id ∷ ids)
      → load_ids load (id ++ behind_semicolons ids) [] s ≡ load_all (id ∷ ids) s
  unfolding behind_semicolons load_all
  load_ids-separated [] ids s ((some_byte, short, plain), rest) = absurd (omega (arith, some_byte))
  load_ids-separated (c ∷ cs) [] s ((some_byte, short, plain), rest) =
      rw (append-nil cs, load_ids-last c cs [] s plain (omega (arith, short)))
        (end_id-short (c ∷ cs) done s short)
  load_ids-separated (c ∷ cs) (id ∷ ids) s ((some_byte, short, plain), rest) =
      load_ids-next c cs (id ++ behind_semicolons ids) [] s plain (omega (arith, short))
      ∙ end_id-short (c ∷ cs) (load_ids load (id ++ behind_semicolons ids) []) s short
      ∙ ap
          (λ (next : S → Run S).
            load (c ∷ cs) s >>= λ (ended, s'). if ended then done s' else next s')
          (fun_ext λ s'. load_ids-separated id ids s' rest)
