-- ===== src/Device/Container/Saving/ReloadModuls.antt =====
-- The modules of a device are loaded as they were saved.
use lielas.Base.{
  ℕ, suc, ◌+◌, ◌*◌, ◌<◌, ◌≤◌, ◌≡◌, ◌∙◌, refl, ap, true, false, Option, some, List, [], ◌∷◌, ◌++◌,
  All, Bytes, ◌==◌, arith, length, codes, str_eq, if◌then◌else◌, done,
}
use mathlib.Core.Path.{subst}
use lielas.Sql.{Server}
use lielas.Ldb.{moduls_table}
use lielas.Device.Slots.{Ptr, Slots}
use lielas.Device.Deletion.{created}
use lielas.Device.Deletion.Leak.{Holds, add-Holds, created-Holds}
use lielas.Device.Container.Loading.{
  LoadedModul, ModulRow, Loads, text_size, modul_fits, load_modul, load_channels,
}
use lielas.Device.Container.Saving.{Library, SavedModul, modul_row, modul_columns, tables}
use lielas.Device.Container.Saving.Updated.{extended}
use lielas.Device.Container.Saving.Rows.{row_of, values, id_limit, IsLibrary, HasRows}
use lielas.Device.Container.Saving.New.{listed, length-extended}
use lielas.Device.Container.Saving.NewModuls.{IsStored}
use lielas.Device.Container.Saving.Reload.{
  Places, ChannelFits, places, AreLoaded, AreLoaded-kept, load_channels-stored,
}

-- The texts of a module and of its channels fit the members that they are loaded into, and there are
-- no more than 18 channels.
abbrev pub ModulFits : {Real : Type 0} → SavedModul Real → Type 0
ModulFits m =
    (length m.address < text_size)
    × (length m.mint < text_size)
    × All ChannelFits m.channels
    × (length m.channels ≤ 18)

module _ {Real : Type 0} (c : Library Real) (v : Server) (lib : IsLibrary c) (h : HasRows c v)
    (at : Places c) where
  open h use {row, selected}
  open at use {place, given, left_size, new}

  abbrev pub loaded_modul : ℕ → SavedModul Real → Slots → LoadedModul
  loaded_modul n m sl = record { id = n; address = m.address; mint = m.mint; channels = sl }

  -- The module at the address of the call `i`, with its channels at the addresses behind it.
  unfoldable pub IsLoaded : (i n k : ℕ) → SavedModul Real → Loads Real → Type 0
  IsLoaded i n k m s =
      ((sl : Slots) × (s.moduls (place i) ≡ some (loaded_modul n m sl))
        × Holds (places c v lib h at (suc i) m.channels) sl)
      × AreLoaded c v lib h at (suc i) k m.channels s

  pub length-listed {ℓ} :
      {A : Type ℓ} (t : Bytes) (k : ℕ) (xs : List A)
      → k + length xs < id_limit
      → length (listed c v t k xs) ≤ length t + 10 * length xs
  unfolding listed
  length-listed t k [] small = omega arith
  length-listed t k (x ∷ xs) small =
      let id = c.show (k + 1) in
      omega (
        arith,
        small,
        length-extended c v lib h t id,
        lib.show_short (k + 1) (omega (arith, small)),
        length-listed (extended t id) (k + 1) xs (omega (arith, small)),
      )

  pub load_modul-stored :
      (n k i : ℕ) (m : SavedModul Real) (ps : List Ptr) (d : v.Db) (s : Loads Real)
      → s.calls ≡ i
      → n < id_limit
      → k + length m.channels < id_limit
      → IsStored c v lib h n k m d
      → ModulFits m
      → Holds ps s.members
      → length ps < 18
      → (s' : Loads Real) × (load_modul (tables c v d) (c.show n) s ≡ done (false, s'))
        × (s'.calls ≡ suc i + length m.channels)
        × Holds (ps ++ place i ∷ []) s'.members
        × IsLoaded i n k m s'
        × ((q : ℕ) → q < i → s'.channels (place q) ≡ s.channels (place q))
        × ((q : ℕ) → q < i → s'.moduls (place q) ≡ s.moduls (place q))
  unfolding load_modul modul_fits IsStored IsLoaded row_of str_eq
  load_modul-stored n k i m ps d s at_i small small_k ((f, there, column, others), stored)
        (t₁, t₂, fits, few_channels) holds few =
      let p = place s.calls in
      let s₁ : Loads Real = record s { calls = suc s.calls; members = created (c.left p) } in
      let (s₂, ran, calls, holds₂, loaded, kept, same) =
        load_channels-stored c v lib h at k (suc i) m.channels [] d s₁ (ap suc at_i) small_k stored
          fits (created-Holds (c.left p) (left_size p)) (omega (arith, few_channels)) in
      let (members', added, holds') = add-Holds ps p s.members holds few in
      let address : f (codes "address") ≡ m.address = others (codes "address") refl in
      let mint : f (codes "mint") ≡ m.mint = others (codes "mint") refl in
      let id : f (codes "id") ≡ c.show n = others (codes "id") refl in
      let number : c.atoi (f (codes "id")) ≡ n = ap c.atoi id ∙ lib.atoi-show n small in
      let r : ModulRow = modul_row (values f modul_columns) in
      let listed' : (tables c v d).modul (c.show n) ≡ some (r ∷ []) =
        rw (selected modul_columns moduls_table (c.show n) d, there) refl in
      let short = length-listed [] k m.channels small_k in
      let row_fits : modul_fits (tables c v d) r ≡ true =
        ground (arith, address, mint, column, t₁, t₂, short, few_channels) in
      let ran' : load_channels (tables c v d) r.channels s₁ ≡ done s₂ = rw column ran in
      let loaded_row : LoadedModul = record {
        id = c.atoi r.id;
        address = r.address;
        mint = r.mint;
        channels = s₂.members;
      } in
      let s' : Loads Real = record s₂ {
        moduls = λ q. if q == p then some loaded_row else s₂.moduls q;
        members = members';
      } in
      let as_saved : loaded_row ≡ loaded_modul n m s₂.members = rw (number, address, mint) refl in
      let here : s'.moduls p ≡ some (loaded_modul n m s₂.members) =
        let own : (p == p) ≡ true = ground arith in rw own (ap some as_saved) in
      (
        s',
        rw (given s.calls, listed', row_fits, ran', added, load_modul) refl,
        calls,
        subst (λ j. Holds (ps ++ place j ∷ []) members') at_i holds',
        (
          (
            s₂.members,
            subst (λ j. s'.moduls (place j) ≡ some (loaded_modul n m s₂.members)) at_i here,
            holds₂,
          ),
          AreLoaded-kept c v lib h at (suc i) k m.channels s₂ s' (λ q lt. refl) loaded,
        ),
        λ q lt. kept q (omega (arith, lt)),
        λ q lt.
            let apart = new q s.calls (omega (arith, lt, at_i)) in
            let other : (place q == p) ≡ false = ground (arith, apart) in
            rw other (ap (λ (f : Ptr → Option LoadedModul). f (place q)) same),
      )
