-- ===== src/Device/Container/Saving/New.antt =====
-- The channels of a module that has a row already, none of which has one.
use lielas.Base.{
  ℕ, suc, ◌+◌, ◌*◌, ◌<◌, ◌≡◌, ◌∙◌, refl, false, none, some, List, [], ◌∷◌, All, Bytes, arith, codes,
  if◌then◌else◌, str_eq, length, length-append, done,
}
use lielas.Sql.{Value, number, Server}
use lielas.Ldb.{moduls_table, channels_table}
use lielas.Device.Container.Loading.{Loads, semicolon}
use lielas.Device.Container.Saving.{Library, SavedChannel, client_size}
use lielas.Device.Container.Saving.Updated.{extended, channel_fields, save_channel, save_channels}
use lielas.Device.Container.Saving.Rows.{
  Row, row_of, IsQuotable, AreQuotable, id_limit, AreApart, IsLibrary, HasRows, show-IsQuotable,
  extended-IsQuotable, save_member-row,
}

abbrev pub channels_column : Bytes
channels_column = codes "channels"

module _ {Real : Type 0} (c : Library Real) (v : Server) where
  -- The column with the ids behind `k`, one for each member.
  unfoldable pub listed {ℓ} : {A : Type ℓ} → Bytes → (k : ℕ) → List A → Bytes
  listed s k [] = s
  listed s k (x ∷ xs) = listed (extended s (c.show (k + 1))) (k + 1) xs

  unfoldable pub number_channels : (k : ℕ) → List (SavedChannel Real) → List (SavedChannel Real)
  number_channels k [] = []
  number_channels k (ch ∷ chs) = record ch { id = k + 1 } ∷ number_channels (k + 1) chs

  abbrev pub channel_values : ℕ → SavedChannel Real → List (Bytes × Value)
  channel_values n ch = (codes "id", number (c.show n)) ∷ channel_fields c v ch

  abbrev pub HasQuotable : SavedChannel Real → Type 0
  HasQuotable ch = AreQuotable (channel_fields c v ch)

module _ {Real : Type 0} (c : Library Real) (v : Server) (lib : IsLibrary c) (h : HasRows c v) where
  open h use {row, last}

  -- The channels have the rows of the ids behind `k`.
  unfoldable pub AreStored : (k : ℕ) → List (SavedChannel Real) → v.Db → Type 0
  AreStored k [] d = Unit
  AreStored k (ch ∷ chs) d =
      (row channels_table (c.show (k + 1)) d ≡ some (row_of (channel_values c v (k + 1) ch)))
      × AreStored (k + 1) chs d

  -- What saving does to the database: the row of the parent in `t` changes and no other one that was
  -- there.
  abbrev pub Keeps : (t i : Bytes) → (d d' : v.Db) → Type 0
  Keeps t i d d' =
      (u j : Bytes) (g : Row) → row u j d ≡ some g → AreApart u j t i → row u j d' ≡ some g

  pub AreStored-Keeps :
      (t : Bytes) (k : ℕ) (chs : List (SavedChannel Real)) (i : Bytes) (d d' : v.Db)
      → str_eq channels_table t ≡ false
      → Keeps t i d d'
      → AreStored k chs d
      → AreStored k chs d'
  unfolding AreStored
  AreStored-Keeps t k [] i d d' other keeps stored = tt
  AreStored-Keeps t k (ch ∷ chs) i d d' other keeps (here, stored) = (
    keeps channels_table (c.show (k + 1)) _ here (rw other refl),
    AreStored-Keeps t (k + 1) chs i d d' other keeps stored,
  )

  pub length-extended : (s id : Bytes) → length (extended s id) < length s + length id + 2
  unfolding extended
  length-extended [] id = omega arith
  length-extended (b ∷ bs) id = omega (arith, length-append (b ∷ bs) (semicolon ∷ id))

  save_channel-new :
      (mid k : ℕ) (ch : SavedChannel Real) (f : Row) (d : v.Db)
      → last channels_table d ≡ k
      → k + 1 < id_limit
      → HasQuotable c v ch
      → row moduls_table (c.show mid) d ≡ some f
      → length (f channels_column) < client_size
      → IsQuotable (f channels_column)
      → let joined = extended (f channels_column) (c.show (k + 1)) in
        (d' : v.Db) × (save_channel c v mid none ch d ≡ done (false, record ch { id = k + 1 }, d'))
        × (row channels_table (c.show (k + 1)) d' ≡ some (row_of (channel_values c v (k + 1) ch)))
        × (row moduls_table (c.show mid) d'
            ≡ some (λ x. if str_eq x channels_column then joined else f x))
        × Keeps moduls_table (c.show mid) d d'
        × (last channels_table d' ≡ k + 1)
        × ((u : Bytes) → str_eq u channels_table ≡ false → last u d' ≡ last u d)
  unfolding save_channel str_eq
  save_channel-new mid k ch f d at_k small plain there short plain_column =
      let (d', saved, stored, parent, keeps, last', lasts) =
        save_member-row c v lib h channels_table (channel_fields c v ch) moduls_table
          channels_column (c.show mid) f d (omega (arith, at_k)) plain refl there short
          plain_column in
      rw (← at_k) (d', rw (saved, save_channel) refl, stored, parent, keeps, last', lasts)

  pub save_channels-new :
      (s : Loads Real) (mid j k : ℕ) (chs : List (SavedChannel Real)) (f : Row) (d : v.Db)
      → last channels_table d ≡ k
      → k + length chs < id_limit
      → All (HasQuotable c v) chs
      → row moduls_table (c.show mid) d ≡ some f
      → length (f channels_column) + 10 * length chs < client_size
      → IsQuotable (f channels_column)
      → (f' : Row) × (d' : v.Db) × (save_channels c v s mid none j chs d
          ≡ done (false, number_channels c v k chs, d'))
        × (row moduls_table (c.show mid) d' ≡ some f')
        × (f' channels_column ≡ listed c v (f channels_column) k chs)
        × ((x : Bytes) → str_eq x channels_column ≡ false → f' x ≡ f x)
        × AreStored k chs d'
        × Keeps moduls_table (c.show mid) d d'
        × (last channels_table d' ≡ k + length chs)
        × ((u : Bytes) → str_eq u channels_table ≡ false → last u d' ≡ last u d)
  unfolding save_channels save_channel number_channels listed AreStored str_eq
  save_channels-new s mid j k [] f d at_k small plain there short plain_column = (
    f,
    d,
    refl,
    there,
    refl,
    λ x ne. refl,
    tt,
    λ u i g g_there a. g_there,
    omega (arith, at_k),
    λ u ne. refl,
  )
  save_channels-new s mid j k (ch ∷ chs) f d at_k small (plain, plains) there short plain_column =
      let id = c.show (k + 1) in
      let joined = extended (f channels_column) id in
      let f₁ : Row = λ x. if str_eq x channels_column then joined else f x in
      let id_short = lib.show_short (k + 1) (omega (arith, small)) in
      let (d₁, saved, stored, parent, keeps, last₁, lasts) =
        save_channel-new mid k ch f d at_k (omega (arith, small)) plain there (omega (arith, short))
          plain_column in
      let (f', d', more, parent', column, others, stored', keeps', last', lasts') =
        save_channels-new s mid (suc j) (k + 1) chs f₁ d₁ last₁ (omega (arith, small)) plains parent
          (omega (arith, short, id_short, length-extended (f channels_column) id))
          (extended-IsQuotable c v lib h (f channels_column) id plain_column
            (show-IsQuotable c v lib h (k + 1))) in
      (
        f',
        d',
        rw (saved, more, save_channels) refl,
        parent',
        column,
        λ x ne. others x ne ∙ rw ne refl,
        (keeps' channels_table id _ stored refl, stored'),
        λ u i g g_there a. keeps' u i g (keeps u i g g_there a) a,
        omega (arith, last'),
        λ u ne. lasts' u ne ∙ lasts u ne,
      )
