-- ===== src/Device/Container/Loading.antt =====
-- `loadModuls` and `loadChannels` of devicecontainer.c: a device's column `moduls` and a module's
-- column `channels` hold ids with a semicolon between them, and each is looked up in its table. The
-- statements, `atoi`, `strtod` and `malloc` are parameters; the log is left out.
pub mod Separated
pub mod Channels
pub mod Devices
pub mod InOrder
use lielas.Base.{
  ℕ, suc, ◌+◌, Bool, true, false, not, ◌&&◌, Option, none, some, List, [], ◌∷◌, ◌++◌, Bytes, ◌==◌,
  ltb, if◌then◌else◌, length, Run, done, fault, ◌>>=◌,
}
use lielas.Device.Slots.{Ptr, Slots, add}
use lielas.Device.Deletion.{created}

-- The size of `mstr` and of `cstr`, and the semicolon.
abbrev pub id_size : ℕ
id_size = 10

abbrev pub semicolon : ℕ
semicolon = 59

-- The size of the texts of a channel and a module, and that of the buffer of the channels' ids.
abbrev pub text_size : ℕ
text_size = 50

abbrev pub channels_size : ℕ
channels_size = 500

-- `Lchannel` and `Lmodul` without the members that are not set here.
pub record Channel (Real : Type 0) : Type 0 where
  pub id : ℕ
  pub address : Bytes
  pub type_text : Bytes
  pub unit : Bytes
  pub exponent : Real

pub record LoadedModul : Type 0 where
  pub id : ℕ
  pub address : Bytes
  pub mint : Bytes
  pub channels : Slots

-- A row of a table.
pub record ChannelRow : Type 0 where
  pub id : Bytes
  pub address : Bytes
  pub type_text : Bytes
  pub unit : Bytes
  pub exponent : Bytes

pub record ModulRow : Type 0 where
  pub id : Bytes
  pub address : Bytes
  pub channels : Bytes
  pub mint : Bytes

-- The rows of an id, none where the statement fails; the number that a text is read as; what
-- `malloc` gives at each of its calls, and what it left in the array of a new module.
pub record Tables (Real : Type 0) : Type 0 where
  pub channel : Bytes → Option (List ChannelRow)
  pub modul : Bytes → Option (List ModulRow)
  pub atoi : Bytes → ℕ
  pub strtod : Bytes → Real
  pub malloc : ℕ → Option Ptr
  pub left : Ptr → List (Option Ptr)

-- The objects that were made, with the count of the calls of `malloc`, and the members of the one
-- that is being loaded.
pub record Loads (Real : Type 0) : Type 0 where
  pub channels : Ptr → Option (Channel Real)
  pub moduls : Ptr → Option LoadedModul
  pub calls : ℕ
  pub members : Slots

module _ {S : Type 0} (load : Bytes → S → Run (Bool × S)) where
  -- The body behind an id: the zero is written behind its bytes. `load` is true where the function
  -- returns.
  unfoldable pub end_id : Bytes → (next : S → Run S) → S → Run S
  end_id id next s =
      if ltb (length id) id_size
      then (load id s >>= λ (ended, s'). if ended then done s' else next s')
      else fault

  -- The loop, with the bytes of an id that were read so far.
  unfoldable pub load_ids : Bytes → (id : Bytes) → S → Run S
  load_ids [] id s = done s
  load_ids (c ∷ []) id s =
      if c == semicolon
      then end_id id done s
      else if ltb (length id) id_size
      then end_id (id ++ c ∷ []) done s
      else fault
  load_ids (c ∷ d ∷ cs) id s =
      let next = load_ids (d ∷ cs) in
      let behind = load_ids cs in
      if c == semicolon
      then end_id id (next []) s
      else if not (ltb (length id) id_size)
      then fault
      else if d == semicolon
      then end_id (id ++ c ∷ []) (behind []) s
      else next (id ++ c ∷ []) s

module _ {Real : Type 0} (rows : Tables Real) where
  unfoldable pub read_channel : ChannelRow → Channel Real
  read_channel r = record {
    id = rows.atoi r.id;
    address = r.address;
    type_text = r.type_text;
    unit = r.unit;
    exponent = rows.strtod r.exponent;
  }

  unfoldable pub channel_fits : ChannelRow → Bool
  channel_fits r =
      ltb (length r.address) text_size
      && ltb (length r.type_text) text_size
      && ltb (length r.unit) text_size

  -- The body of `loadChannels`. `LcreateChannel` writes to what `malloc` gives without a test. With
  -- no row `atoi` reads a null pointer.
  unfoldable pub load_channel : Bytes → Loads Real → Run (Bool × Loads Real)
  load_channel id s = elim (rows.malloc s.calls) [
    | none ↦ fault
    | some p ↦ elim (rows.channel id) [
      | none ↦ done (true, record s { calls = suc s.calls })
      | some [] ↦ fault
      | some (r ∷ more) ↦
          if channel_fits r
          then (add p s.members >>= λ members'. done (
            false,
            record s {
              channels = λ q. if q == p then some (read_channel r) else s.channels q;
              calls = suc s.calls;
              members = members';
            },
          ))
          else fault
    ]
  ]

  unfoldable pub load_channels : Bytes → Loads Real → Run (Loads Real)
  load_channels text s = load_ids load_channel text [] s

  unfoldable pub modul_fits : ModulRow → Bool
  modul_fits r =
      ltb (length r.address) text_size
      && ltb (length r.channels) channels_size
      && ltb (length r.mint) text_size

  -- The body of `loadModuls`.
  unfoldable pub load_modul : Bytes → Loads Real → Run (Bool × Loads Real)
  load_modul id s =
      let s₁ = record s { calls = suc s.calls } in
      elim (rows.malloc s.calls) [
        | none ↦ done (true, s₁)
        | some p ↦ elim (rows.modul id) [
          | none ↦ done (true, s₁)
          | some [] ↦ fault
          | some (r ∷ more) ↦
              if modul_fits r
              then (load_channels r.channels (record s₁ { members = created (rows.left p) })
                  >>= λ s₂. add p s.members >>= λ members'.
                      let m : LoadedModul = record {
                        id = rows.atoi r.id;
                        address = r.address;
                        mint = r.mint;
                        channels = s₂.members;
                      } in
                      done (
                        false,
                        record s₂ {
                          moduls = λ q. if q == p then some m else s₂.moduls q;
                          members = members';
                        },
                      ))
              else fault
        ]
      ]

  unfoldable pub load_moduls : Bytes → Loads Real → Run (Loads Real)
  load_moduls text s = load_ids load_modul text [] s
