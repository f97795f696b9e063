-- ===== src/Device/Container/Loading/Channels.antt =====
-- The channels of a module are loaded.
use lielas.Base.{
  ℕ, suc, ◌+◌, ◌<◌, ◌≤◌, ◌≡◌, ◌≢◌, ◌∙◌, refl, true, false, some, List, [], ◌∷◌, ◌++◌, append_assoc,
  append-nil, length, length-append, All, arith, ◌==◌, Bytes, if◌then◌else◌, done,
}
use mathlib.Core.Path.{subst}
use lielas.Device.Slots.{Ptr}
use lielas.Device.Deletion.Leak.{Holds, add-Holds}
use lielas.Device.Container.Loading.{
  ChannelRow, Tables, Loads, read_channel, channel_fits, load_channel, load_channels,
}
use lielas.Device.Container.Loading.Separated.{
  behind_semicolons, IsId, load_all, load_ids-separated,
}

module _ {Real : Type 0} (rows : Tables Real) (row : Bytes → ChannelRow) (place : ℕ → Ptr) where
  -- The addresses that `malloc` gives from its call `n` on.
  unfoldable pub places : ℕ → List Bytes → List Ptr
  places n [] = []
  places n (id ∷ ids) = place n ∷ places (suc n) ids

  -- At these addresses are the channels of the rows.
  unfoldable pub AreRead : ℕ → List Bytes → Loads Real → Type 0
  AreRead n [] s = Unit
  AreRead n (id ∷ ids) s =
      (s.channels (place n) ≡ some (read_channel rows (row id))) × AreRead (suc n) ids s

  -- The table has the row of an id, and its texts fit the members.
  abbrev pub IsListed : Bytes → Type 0
  IsListed id = (rows.channel id ≡ some (row id ∷ [])) × (channel_fits rows (row id) ≡ true)

  pub load_channel-listed :
      (id : Bytes) (ps : List Ptr) (s : Loads Real)
      → IsListed id
      → rows.malloc s.calls ≡ some (place s.calls)
      → Holds ps s.members
      → length ps < 18
      → (s' : Loads Real) × (load_channel rows id s ≡ done (false, s'))
        × (s'.calls ≡ suc s.calls)
        × Holds (ps ++ place s.calls ∷ []) s'.members
        × (s'.channels (place s.calls) ≡ some (read_channel rows (row id)))
        × ((q : Ptr) → q ≢ place s.calls → s'.channels q ≡ s.channels q)
        × (s'.moduls ≡ s.moduls)
  unfolding load_channel
  load_channel-listed id ps s (listed, fits) made h few =
      let p = place s.calls in
      let (m, added, h') = add-Holds ps p s.members h few in
      let same : (p == p) ≡ true = ground arith in
      (
        record s {
          channels = λ q. if q == p then some (read_channel rows (row id)) else s.channels q;
          calls = suc s.calls;
          members = m;
        },
        rw (made, listed, fits, added, load_channel) refl,
        refl,
        h',
        rw same refl,
        λ q ne. let other : (q == p) ≡ false = ground (arith, ne) in rw other refl,
        refl,
      )

  load_all-listed :
      (ids : List Bytes) (ps : List Ptr) (s : Loads Real)
      → All IsListed ids
      → ((i : ℕ) → rows.malloc i ≡ some (place i))
      → ((i j : ℕ) → i < j → place i ≢ place j)
      → Holds ps s.members
      → length ps + length ids ≤ 18
      → (s' : Loads Real) × (load_all (load_channel rows) ids s ≡ done s')
        × Holds (ps ++ places s.calls ids) s'.members
        × AreRead s.calls ids s'
        × ((q : Ptr) → ((j : ℕ) → s.calls ≤ j → q ≢ place j) → s'.channels q ≡ s.channels q)
  unfolding load_all places AreRead
  load_all-listed [] ps s listed made apart h few = (s, refl, rw append-nil h, tt, λ q ne. refl)
  load_all-listed (id ∷ ids) ps s (here, there) made apart h few =
      let (s₁, one, calls, h₁, stored, others, _) =
        load_channel-listed id ps s here (made s.calls) h (omega (arith, few)) in
      let (s₂, more, h₂, read, kept) =
        load_all-listed ids (ps ++ place s.calls ∷ []) s₁ there made apart h₁
          (omega (arith, few, length-append ps (place s.calls ∷ []))) in
      (
        s₂,
        rw one more,
        rw (← append_assoc ps (place s.calls ∷ []) (places (suc s.calls) ids))
            (subst (λ n. Holds (ps ++ place s.calls ∷ [] ++ places n ids) s₂.members) calls h₂),
        (
          kept (place s.calls) (λ j le. apart s.calls j (omega (arith, calls, le))) ∙ stored,
          subst (λ n. AreRead n ids s₂) calls read,
        ),
        λ q ne.
            kept q (λ j le. ne j (omega (arith, calls, le))) ∙ others q (ne s.calls (omega arith)),
      )

  -- A column of ids that the table of channels has, of one byte at least and nine at most, none of
  -- which is a semicolon, and with a semicolon between them, is loaded where `malloc` succeeds with
  -- a new address at each call, the texts of the rows fit and the module has room for the channels:
  -- they stand behind those of the module in the order of the ids, each as its row tells.
  pub load_channels-listed :
      (id : Bytes) (ids : List Bytes) (ps : List Ptr) (s : Loads Real)
      → All IsId (id ∷ ids)
      → All IsListed (id ∷ ids)
      → ((i : ℕ) → rows.malloc i ≡ some (place i))
      → ((i j : ℕ) → i < j → place i ≢ place j)
      → Holds ps s.members
      → length ps + length (id ∷ ids) ≤ 18
      → (s' : Loads Real) × (load_channels rows (id ++ behind_semicolons ids) s ≡ done s')
        × Holds (ps ++ places s.calls (id ∷ ids)) s'.members
        × AreRead s.calls (id ∷ ids) s'
  unfolding load_channels
  load_channels-listed id ids ps s are_ids listed made apart h few =
      let (s', loaded, holds, read, _) = load_all-listed (id ∷ ids) ps s listed made apart h few in
      (s', load_ids-separated (load_channel rows) id ids s are_ids ∙ loaded, holds, read)
