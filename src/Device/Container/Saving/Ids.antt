-- ===== src/Device/Container/Saving/Ids.antt =====
-- The column of ids that the saving writes is the one that the loading reads.
use lielas.Base.{
  ℕ, suc, ◌+◌, ◌<◌, ◌≡◌, ◌∙◌, refl, Bool, List, [], ◌∷◌, ◌++◌, append_assoc, append-nil, All, Bytes,
  arith, length, Run,
}
use lielas.Sql.{Server}
use lielas.Device.Container.Loading.{semicolon, load_ids}
use lielas.Device.Container.Loading.Separated.{
  behind_semicolons, IsPlain, IsId, load_all, load_ids-separated,
}
use lielas.Device.Container.Saving.{Library}
use lielas.Device.Container.Saving.Updated.{extended}
use lielas.Device.Container.Saving.Rows.{id_limit, IsLibrary}
use lielas.Device.Container.Saving.New.{listed}

-- A text that is not empty.
abbrev IsSome : Bytes → Type 0
IsSome t = 0 < length t

module _ {Real : Type 0} (c : Library Real) (v : Server) (lib : IsLibrary c) where
  -- The ids behind `k`, one for each member.
  unfoldable pub ids_from {ℓ} : {A : Type ℓ} → ℕ → List A → List Bytes
  ids_from k [] = []
  ids_from k (x ∷ xs) = c.show (k + 1) ∷ ids_from (k + 1) xs

  show-IsId : (n : ℕ) → n < id_limit → IsId (c.show n)
  show-IsId n small =
      (lib.show_some n, lib.show_short n small, plain (c.show n) (lib.show_digits n))
    where
      plain : (t : Bytes) → All (λ ch. (b'0' < suc ch) × (ch < b':')) t → IsPlain t
      plain [] q = tt
      plain (ch ∷ t) ((low, high), q) = (ground (arith, high), plain t q)

  ids_from-IsId {ℓ} :
      {A : Type ℓ} (k : ℕ) (xs : List A) → k + length xs < id_limit → All IsId (ids_from k xs)
  unfolding ids_from
  ids_from-IsId k [] small = tt
  ids_from-IsId k (x ∷ xs) small =
      (show-IsId (k + 1) (omega (arith, small)), ids_from-IsId (k + 1) xs (omega (arith, small)))

  listed-behind_semicolons {ℓ} :
      {A : Type ℓ} (s : Bytes) (k : ℕ) (xs : List A)
      → IsSome s
      → listed c v s k xs ≡ s ++ behind_semicolons (ids_from k xs)
  unfolding listed behind_semicolons ids_from extended
  listed-behind_semicolons [] k xs some_byte = absurd (omega (arith, some_byte))
  listed-behind_semicolons (b ∷ bs) k [] some_byte = rw append-nil refl
  listed-behind_semicolons (b ∷ bs) k (x ∷ xs) some_byte =
      let id = c.show (k + 1) in
      listed-behind_semicolons (b ∷ (bs ++ semicolon ∷ id)) (k + 1) xs (omega arith)
      ∙ append_assoc (b ∷ bs) (semicolon ∷ id) (behind_semicolons (ids_from (k + 1) xs))

  -- Loading a column that was written for some members loads their ids in their order.
  pub load_ids-listed {ℓ} :
      {A : Type ℓ} {S : Type 0} (load : Bytes → S → Run (Bool × S)) (k : ℕ) (xs : List A) (s : S)
      → k + length xs < id_limit
      → load_ids load (listed c v [] k xs) [] s ≡ load_all load (ids_from k xs) s
  unfolding listed ids_from extended load_ids load_all
  load_ids-listed load k [] s small = refl
  load_ids-listed load k (x ∷ xs) s small =
      let ids = ids_from-IsId k (x ∷ xs) small in
      let column = listed-behind_semicolons (c.show (k + 1)) (k + 1) xs (lib.show_some (k + 1)) in
      rw column (load_ids-separated load (c.show (k + 1)) (ids_from (k + 1) xs) s ids)
