-- ===== src/Device/Container/Saving/Reload.antt =====
-- The channels of a module are loaded as they were saved.
use lielas.Base.{
  ℕ, suc, ◌+◌, ◌<◌, ◌≤◌, ◌≡◌, ◌≢◌, ◌∙◌, refl, ap, true, false, none, some, List, [], ◌∷◌, ◌++◌,
  append_assoc, append-nil, All, Bytes, arith, length, length-append, str_eq, done,
}
use mathlib.Core.Path.{subst}
use lielas.Sql.{Server}
use lielas.Ldb.{channels_table}
use lielas.Device.Slots.{Ptr}
use lielas.Device.Deletion.Leak.{Holds}
use lielas.Device.Container.Loading.{
  Channel, ChannelRow, Loads, text_size, read_channel, channel_fits, load_channel, load_channels,
}
use lielas.Device.Container.Loading.Separated.{load_all}
use lielas.Device.Container.Loading.Channels.{load_channel-listed}
use lielas.Device.Container.Saving.{Library, SavedChannel, channel_row, channel_columns, tables}
use lielas.Device.Container.Saving.Rows.{row_of, values, id_limit, IsLibrary, HasRows}
use lielas.Device.Container.Saving.New.{listed, channel_values, AreStored}
use lielas.Device.Container.Saving.Ids.{ids_from, load_ids-listed}

-- `malloc` gives the address `place i` at its call `i`, a new one each time, with the slots of a module
-- behind the first one.
pub record Places {Real : Type 0} (c : Library Real) : Type 0 where
  pub place : ℕ → Ptr
  pub given : (i : ℕ) → c.malloc i ≡ some (place i)
  pub left_size : (p : Ptr) → length (c.left p) ≡ 19
  pub new : (i j : ℕ) → i < j → place i ≢ place j

-- The texts of a channel fit the members that they are loaded into.
abbrev pub ChannelFits : {Real : Type 0} → SavedChannel Real → Type 0
ChannelFits ch =
    (length ch.address < text_size)
    × (length ch.type_text < text_size)
    × (length ch.unit < text_size)

module _ {Real : Type 0} (c : Library Real) (v : Server) (lib : IsLibrary c) (h : HasRows c v)
    (at : Places c) where
  open h use {row, selected}
  open at use {place, given, new}

  -- The addresses from the call `i` on.
  unfoldable pub places {ℓ} : {A : Type ℓ} → ℕ → List A → List Ptr
  places i [] = []
  places i (x ∷ xs) = place i ∷ places (suc i) xs

  -- What is loaded of a channel.
  abbrev pub loaded_channel : ℕ → SavedChannel Real → Channel Real
  loaded_channel n ch = record {
    id = n;
    address = ch.address;
    type_text = ch.type_text;
    unit = ch.unit;
    exponent = c.strtod (c.show_real ch.exponent);
  }

  unfoldable pub AreLoaded : (i k : ℕ) → List (SavedChannel Real) → Loads Real → Type 0
  AreLoaded i k [] s = Unit
  AreLoaded i k (ch ∷ chs) s =
      (s.channels (place i) ≡ some (loaded_channel (k + 1) ch)) × AreLoaded (suc i) (k + 1) chs s

  -- The row that the table has of an id.
  abbrev found : v.Db → Bytes → ChannelRow
  found d id =
      channel_row
        (values (elim (row channels_table id d) [ none ↦ λ x. [] | some f ↦ f ]) channel_columns)

  load_channel-stored :
      (k : ℕ) (ch : SavedChannel Real) (ps : List Ptr) (d : v.Db) (s : Loads Real)
      → k + 1 < id_limit
      → row channels_table (c.show (k + 1)) d ≡ some (row_of (channel_values c v (k + 1) ch))
      → ChannelFits ch
      → Holds ps s.members
      → length ps < 18
      → (s' : Loads Real) × (load_channel (tables c v d) (c.show (k + 1)) s ≡ done (false, s'))
        × (s'.calls ≡ suc s.calls)
        × Holds (ps ++ place s.calls ∷ []) s'.members
        × (s'.channels (place s.calls) ≡ some (loaded_channel (k + 1) ch))
        × ((q : Ptr) → q ≢ place s.calls → s'.channels q ≡ s.channels q)
        × (s'.moduls ≡ s.moduls)
  unfolding channel_fits read_channel row_of str_eq
  load_channel-stored k ch ps d s small there (t₁, t₂, t₃) holds few =
      let id = c.show (k + 1) in
      let listed' : (tables c v d).channel id ≡ some (found d id ∷ []) =
        rw (selected channel_columns channels_table id d, there) refl in
      let fits : channel_fits (tables c v d) (found d id) ≡ true =
        rw there (ground (arith, t₁, t₂, t₃)) in
      let (s', ran, calls, holds', stored, others, same) =
        load_channel-listed (tables c v d) (found d) place id ps s (listed', fits) (given s.calls)
          holds few in
      let read : read_channel (tables c v d) (found d id) ≡ loaded_channel (k + 1) ch =
        rw (there, lib.atoi-show (k + 1) small) refl in
      (s', ran, calls, holds', stored ∙ ap some read, others, same)

  pub AreLoaded-kept :
      (i k : ℕ) (chs : List (SavedChannel Real)) (s s' : Loads Real)
      → ((q : ℕ) → q < i + length chs → s'.channels (place q) ≡ s.channels (place q))
      → AreLoaded i k chs s
      → AreLoaded i k chs s'
  unfolding AreLoaded
  AreLoaded-kept i k [] s s' kept loaded = tt
  AreLoaded-kept i k (ch ∷ chs) s s' kept (here, loaded) = (
    kept i (omega arith) ∙ here,
    AreLoaded-kept (suc i) (k + 1) chs s s' (λ q lt. kept q (omega (arith, lt))) loaded,
  )

  load_all-stored :
      (k i : ℕ) (chs : List (SavedChannel Real)) (ps : List Ptr) (d : v.Db) (s : Loads Real)
      → s.calls ≡ i
      → k + length chs < id_limit
      → AreStored c v lib h k chs d
      → All ChannelFits chs
      → Holds ps s.members
      → length ps + length chs ≤ 18
      → (s' : Loads Real) × (load_all (load_channel (tables c v d)) (ids_from c v lib k chs) s
          ≡ done s')
        × (s'.calls ≡ i + length chs)
        × Holds (ps ++ places i chs) s'.members
        × AreLoaded i k chs s'
        × ((q : ℕ) → q < i → s'.channels (place q) ≡ s.channels (place q))
        × (s'.moduls ≡ s.moduls)
  unfolding load_all ids_from places AreLoaded AreStored
  load_all-stored k i [] ps d s at_i small stored fits holds few =
      (s, refl, omega (arith, at_i), rw append-nil holds, tt, λ q lt. refl, refl)
  load_all-stored k i (ch ∷ chs) ps d s at_i small (stored, more_stored) (fits, more_fit) holds
        few =
      let (s₁, one, calls₁, holds₁, here, others₁, same₁) =
        load_channel-stored k ch ps d s (omega (arith, small)) stored fits holds
          (omega (arith, few)) in
      let (s₂, more, calls₂, holds₂, loaded, kept₂, same₂) =
        load_all-stored (k + 1) (suc i) chs (ps ++ place s.calls ∷ []) d s₁
          (omega (arith, calls₁, at_i)) (omega (arith, small)) more_stored more_fit holds₁
          (omega (arith, few, length-append ps (place s.calls ∷ []))) in
      (
        s₂,
        rw (one, more, load_all) refl,
        omega (arith, calls₂),
        rw (← append_assoc ps (place i ∷ []) (places (suc i) chs))
            (subst (λ n. Holds (ps ++ place n ∷ [] ++ places (suc i) chs) s₂.members) at_i holds₂),
        (
          kept₂ i (omega arith)
              ∙ subst (λ n. s₁.channels (place n) ≡ some (loaded_channel (k + 1) ch)) at_i here,
          loaded,
        ),
        λ q lt.
            kept₂ q (omega (arith, lt))
            ∙ others₁ (place q) (new q s.calls (omega (arith, lt, at_i))),
        same₂ ∙ same₁,
      )

  -- The column of the channels.
  pub load_channels-stored :
      (k i : ℕ) (chs : List (SavedChannel Real)) (ps : List Ptr) (d : v.Db) (s : Loads Real)
      → s.calls ≡ i
      → k + length chs < id_limit
      → AreStored c v lib h k chs d
      → All ChannelFits chs
      → Holds ps s.members
      → length ps + length chs ≤ 18
      → (s' : Loads Real) × (load_channels (tables c v d) (listed c v [] k chs) s ≡ done s')
        × (s'.calls ≡ i + length chs)
        × Holds (ps ++ places i chs) s'.members
        × AreLoaded i k chs s'
        × ((q : ℕ) → q < i → s'.channels (place q) ≡ s.channels (place q))
        × (s'.moduls ≡ s.moduls)
  unfolding load_channels
  load_channels-stored k i chs ps d s at_i small stored fits holds few =
      let (s', ran, calls, holds', loaded, kept, same) =
        load_all-stored k i chs ps d s at_i small stored fits holds few in
      (
        s',
        load_ids-listed c v lib (load_channel (tables c v d)) k chs s small ∙ ran,
        calls,
        holds',
        loaded,
        kept,
        same,
      )
