-- ===== src/Device/Container/Saving/NewModuls.antt =====
-- The modules of a device that has only its own row, with their channels.
use lielas.Base.{
  ℕ, suc, ◌+◌, ◌*◌, ◌<◌, ◌≡◌, ◌∙◌, refl, false, none, some, List, [], ◌∷◌, All, Bytes, arith, codes,
  if◌then◌else◌, str_eq, length, done,
}
use lielas.Sql.{Value, number, Server}
use lielas.Ldb.{moduls_table, channels_table, devices_table}
use lielas.Device.Slots.{Slots}
use lielas.Device.Container.Loading.{Loads}
use lielas.Device.Container.Saving.{Library, SavedModul, client_size}
use lielas.Device.Container.Saving.Updated.{
  extended, modul_fields, old_modul, save_modul_row, save_modul, save_moduls,
}
use lielas.Device.Container.Saving.Rows.{
  Row, row_of, IsQuotable, AreQuotable, id_limit, IsLibrary, HasRows, show-IsQuotable,
  extended-IsQuotable, save_member-row, apart,
}
use lielas.Device.Container.Saving.New.{
  channels_column, listed, number_channels, HasQuotable, AreStored, Keeps, save_channels-new,
  AreStored-Keeps, length-extended,
}

abbrev pub moduls_column : Bytes
moduls_column = codes "moduls"

module _ {Real : Type 0} (c : Library Real) (v : Server) where
  -- The modules get the ids behind `n`, and their channels those behind `k`.
  unfoldable pub number_moduls : (n k : ℕ) → List (SavedModul Real) → List (SavedModul Real)
  number_moduls n k [] = []
  number_moduls n k (m ∷ ms) =
      record m { id = n + 1; channels = number_channels c v k m.channels }
      ∷ number_moduls (n + 1) (k + length m.channels) ms

  unfoldable pub channel_count : List (SavedModul Real) → ℕ
  channel_count [] = 0
  channel_count (m ∷ ms) = length m.channels + channel_count ms

  abbrev pub modul_values : ℕ → SavedModul Real → List (Bytes × Value)
  modul_values n m = (codes "id", number (c.show n)) ∷ modul_fields c v m

  -- The texts have no quotes, and the module has less than 20 channels.
  abbrev pub IsSavable : SavedModul Real → Type 0
  IsSavable m =
      AreQuotable (modul_fields c v m) × All (HasQuotable c v) m.channels × (length m.channels < 20)

module _ {Real : Type 0} (c : Library Real) (v : Server) (lib : IsLibrary c) (h : HasRows c v) where
  open h use {row, last}

  -- The row of a module: its values, and the ids of its channels, which have their rows.
  unfoldable pub IsStored : (n k : ℕ) → SavedModul Real → v.Db → Type 0
  IsStored n k m d =
      ((f : Row) × (row moduls_table (c.show n) d ≡ some f)
        × (f channels_column ≡ listed c v [] k m.channels)
        × ((x : Bytes) → str_eq x channels_column ≡ false → f x ≡ row_of (modul_values c v n m) x))
      × AreStored c v lib h k m.channels d

  unfoldable pub AreStoredModuls : (n k : ℕ) → List (SavedModul Real) → v.Db → Type 0
  AreStoredModuls n k [] d = Unit
  AreStoredModuls n k (m ∷ ms) d =
      IsStored (n + 1) k m d × AreStoredModuls (n + 1) (k + length m.channels) ms d

  save_modul_row-new :
      (did n : ℕ) (m : SavedModul Real) (f : Row) (d : v.Db)
      → last moduls_table d ≡ n
      → n + 1 < id_limit
      → AreQuotable (modul_fields c v m)
      → row devices_table (c.show did) d ≡ some f
      → length (f moduls_column) < client_size
      → IsQuotable (f moduls_column)
      → let joined = extended (f moduls_column) (c.show (n + 1)) in
        (d' : v.Db) × (save_modul_row c v did none m d ≡ done (false, record m { id = n + 1 }, d'))
        × (row moduls_table (c.show (n + 1)) d' ≡ some (row_of (modul_values c v (n + 1) m)))
        × (row devices_table (c.show did) d'
            ≡ some (λ x. if str_eq x moduls_column then joined else f x))
        × Keeps c v lib h devices_table (c.show did) d d'
        × (last moduls_table d' ≡ n + 1)
        × (last channels_table d' ≡ last channels_table d)
  unfolding save_modul_row str_eq
  save_modul_row-new did n m f d at_n small plain there short plain_column =
      let (d', saved, stored, parent, keeps, last', lasts) =
        save_member-row c v lib h moduls_table (modul_fields c v m) devices_table moduls_column
          (c.show did) f d (omega (arith, at_n)) plain refl there short plain_column in
      rw (← at_n) (
        d',
        rw (saved, save_modul_row) refl,
        stored,
        parent,
        keeps,
        last',
        lasts channels_table refl,
      )

  pub save_modul-new :
      (s : Loads Real) (did n k : ℕ) (m : SavedModul Real) (f : Row) (d : v.Db)
      → last moduls_table d ≡ n
      → last channels_table d ≡ k
      → n + 1 < id_limit
      → k + length m.channels < id_limit
      → IsSavable c v m
      → row devices_table (c.show did) d ≡ some f
      → length (f moduls_column) < client_size
      → IsQuotable (f moduls_column)
      → let joined = extended (f moduls_column) (c.show (n + 1)) in
        let m' = record m { id = n + 1; channels = number_channels c v k m.channels } in
        (d' : v.Db) × (save_modul c v s did none m d ≡ done (false, m', d'))
        × (row devices_table (c.show did) d'
            ≡ some (λ x. if str_eq x moduls_column then joined else f x))
        × IsStored (n + 1) k m d'
        × Keeps c v lib h devices_table (c.show did) d d'
        × (last moduls_table d' ≡ n + 1)
        × (last channels_table d' ≡ k + length m.channels)
  unfolding save_modul str_eq IsStored row_of
  save_modul-new s did n k m f d at_n at_k small small_k (plain, plains, few) there short
        plain_column =
      let id = c.show (n + 1) in
      let (d₁, saved, stored, parent, keeps, last₁, same_k) =
        save_modul_row-new did n m f d at_n small plain there short plain_column in
      let (g, d₂, channels_saved, own, column, others, are_stored, keeps₂, last₂, lasts₂) =
        save_channels-new c v lib h s (n + 1) 1 k m.channels (row_of (modul_values c v (n + 1) m))
          d₁ (same_k ∙ at_k) small_k plains stored (omega (arith, few)) tt in
      (
        d₂,
        rw (saved, channels_saved, save_modul) refl,
        keeps₂ devices_table (c.show did) _ parent refl,
        ((g, own, column, others), are_stored),
        λ u i r r_there a. keeps₂ u i r (keeps u i r r_there a) (
            apart c v lib h u i moduls_table id r d r_there
              (h.above_last moduls_table (n + 1) d (omega (arith, at_n)) small)),
        lasts₂ moduls_table refl ∙ last₁,
        last₂,
      )

  IsStored-Keeps :
      (n k : ℕ) (m : SavedModul Real) (i : Bytes) (d d' : v.Db)
      → Keeps c v lib h devices_table i d d'
      → IsStored n k m d
      → IsStored n k m d'
  unfolding IsStored str_eq
  IsStored-Keeps n k m i d d' keeps ((f, there, column, others), stored) = (
    (f, keeps moduls_table (c.show n) f there refl, column, others),
    AreStored-Keeps c v lib h devices_table k m.channels i d d' refl keeps stored,
  )

  -- A device whose row lists no module that is loaded again.
  pub save_moduls-new :
      (s : Loads Real) (did n k i : ℕ) (olds : Slots) (ms : List (SavedModul Real)) (f : Row)
      (d : v.Db)
      → last moduls_table d ≡ n
      → last channels_table d ≡ k
      → n + length ms < id_limit
      → k + channel_count c v ms < id_limit
      → All (IsSavable c v) ms
      → ((j : ℕ) → j < i + length ms → old_modul c v s olds j ≡ done none)
      → row devices_table (c.show did) d ≡ some f
      → length (f moduls_column) + 10 * length ms < client_size
      → IsQuotable (f moduls_column)
      → (f' : Row) × (d' : v.Db) × (save_moduls c v s did olds i ms d
          ≡ done (false, number_moduls c v n k ms, d'))
        × (row devices_table (c.show did) d' ≡ some f')
        × (f' moduls_column ≡ listed c v (f moduls_column) n ms)
        × ((x : Bytes) → str_eq x moduls_column ≡ false → f' x ≡ f x)
        × AreStoredModuls n k ms d'
        × Keeps c v lib h devices_table (c.show did) d d'
  unfolding save_moduls number_moduls channel_count listed AreStoredModuls str_eq
  save_moduls-new s did n k i olds [] f d at_n at_k small small_k plain olds_null there short
        plain_column =
      (f, d, refl, there, refl, λ x ne. refl, tt, λ u j g g_there a. g_there)
  save_moduls-new s did n k i olds (m ∷ ms) f d at_n at_k small small_k (plain, plains) olds_null
        there short plain_column =
      let id = c.show (n + 1) in
      let joined = extended (f moduls_column) id in
      let f₁ : Row = λ x. if str_eq x moduls_column then joined else f x in
      let id_short = lib.show_short (n + 1) (omega (arith, small)) in
      let (d₁, saved, parent, stored, keeps, last₁, last_k₁) =
        save_modul-new s did n k m f d at_n at_k (omega (arith, small)) (omega (arith, small_k))
          plain there (omega (arith, short)) plain_column in
      let (f', d', more, parent', column, others, stored', keeps') =
        save_moduls-new s did (n + 1) (k + length m.channels) (suc i) olds ms f₁ d₁ last₁ last_k₁
          (omega (arith, small)) (omega (arith, small_k)) plains
          (λ j lt. olds_null j (omega (arith, lt))) parent
          (omega (arith, short, id_short, length-extended c v lib h (f moduls_column) id))
          (extended-IsQuotable c v lib h (f moduls_column) id plain_column
            (show-IsQuotable c v lib h (n + 1))) in
      (
        f',
        d',
        rw (olds_null i (omega arith), saved, more, save_moduls) refl,
        parent',
        column,
        λ x ne. others x ne ∙ rw ne refl,
        (IsStored-Keeps (n + 1) k m (c.show did) d₁ d' keeps' stored, stored'),
        λ u j g g_there a. keeps' u j g (keeps u j g g_there a) a,
      )
