-- ===== src/Lbus/Handler/Delete.antt =====
-- A command that deletes a device.
use lielas.Base.{
  ℕ, ◌≤◌, ◌<◌, ◌∙◌, ap, ◌≡◌, refl, Bool, true, false, not, ◌&&◌, none, some, List, [], ◌∷◌, ◌++◌,
  Bytes, ◌==◌, ==_iff, leb, arith, All, length, drop, str_eq, str_eq_refl, codes, pos, ltb_ℤ, done,
}
use lielas.Rtc.I2c.{Tools}
use lielas.Device.Container.{Ldc, missing, empty, holds, search, get_device, get_device_by_id}
use lielas.Device.Container.Lookup.{members}
use lielas.Device.Container.Removing.{remove-members}
use lielas.Lbus.Queue.{Ptr, Cmd, Node}
use lielas.Lbus.Settings.{Database}
use lielas.Lbus.Net.Relogin.{IsOnly}
use lielas.Json.{Token, is_named, token_text}
use lielas.Lbus.Change.{Reader, Rows, Locals, Central, read_id, look_up}
use lielas.Lbus.Handler.{
  delete_ldevice, del_device, del_tokens, handle_del_cmd, dispatch, lbus_handler,
}
use lielas.Lbus.Handler.Deleted.{DbRow, HasRows, is_row_of, deleted-there}
use lielas.Lbus.Handler.Login.{taken, lbus_handler-first}
use lielas.Lbus.Handler.Unknown.{handled-only}

-- A command for the gateway whose payload jsmn reads as an object, the name `device`, an id and
-- tokens that are no strings, with the buffer for the id as `stale` says.
pub record IsDelete {Time : Type 0} (r : Reader) (stale : Bytes) (id : ℕ) (c : Cmd Time)
    : Type 0 where
  pub object : Token
  pub name : Token
  pub value : Token
  pub more : List Token
  pub del : c.cmd ≡ codes "del"
  pub liegw : c.address ≡ codes "liegw"
  pub parsed : (r.parse c.payload).1 ≡ object ∷ name ∷ value ∷ more
  pub object_kind : object.is_string ≡ false
  pub name_kind : name.is_string ≡ true
  pub named : is_named (codes "device") c.payload name ≡ true
  pub short : length (token_text c.payload value) ≤ length stale
  pub number :
      r.atoi (token_text c.payload value ++ drop (length (token_text c.payload value)) stale)
      ≡ pos id
  pub positive : 0 < id
  pub plain : All (λ t. t.is_string ≡ false) more

search-at :
    (test : Ptr → Bool) (before : List Ptr) (d : Ptr) (after : List Ptr)
    → All (λ p. test p ≡ false) before
    → test d ≡ true
    → search test (before ++ d ∷ after) ≡ some d
unfolding search
search-at test [] d after h e = rw e refl
search-at test (x ∷ before) d after h e = ground (arith, h.0, search-at test before d after h.1 e)

get_device-at :
    (test : Ptr → Bool) (allocated : Bool) (before : List Ptr) (d : Ptr) (after : List Ptr)
    (s : Ldc)
    → members s ≡ before ++ d ∷ after
    → All (λ p. test p ≡ false) before
    → test d ≡ true
    → get_device allocated test s ≡ (false, some d, s)
unfolding get_device
get_device-at test allocated [] d after missing e h is = absurd (cc)
get_device-at test allocated (x ∷ before) d after missing e h is = absurd (cc)
get_device-at test allocated [] d after empty e h is = absurd (cc)
get_device-at test allocated (x ∷ before) d after empty e h is = absurd (cc)
get_device-at test allocated before d after (holds f rest) e h is =
    let found : search test (f ∷ rest) ≡ some d = rw e (search-at test before d after h is) in
    rw found refl

module _ (b : Database) (rows : Rows b.Db) {Time W : Type 0} (run : Bytes → W → Bool × W)
    (later : ℕ → Time → Time) (tools : Tools) (r : Reader) where
  abbrev State : Type 0
  State = Central b Time W tools.Wire

  del_tokens-plain :
      (l : Locals Time) (p : Ptr) (more : List Token) (s : State)
      → All (λ t. t.is_string ≡ false) more
      → del_tokens b rows run later tools r l p more s ≡ done s
  unfolding del_tokens
  del_tokens-plain l p [] s h = refl
  del_tokens-plain l p (t ∷ []) s h = rw h.0 refl
  del_tokens-plain l p (t ∷ v ∷ more) s h = rw h.0 (del_tokens-plain l p (v ∷ more) s h.1)

  del_tokens-device :
      (l : Locals Time) (p : Ptr) (id : ℕ) (c : Cmd Time) (s s' : State)
      → (kind : IsDelete r l.stale id c) → s.gateway.bus.cmds p ≡ some c
      → del_device b rows run later tools r l p id s ≡ done s'
      → del_tokens b rows run later tools r l p (kind.object ∷ kind.name ∷ kind.value ∷ kind.more) s
        ≡ done s'
  unfolding del_tokens read_id
  del_tokens-device l p id c s s' kind live deleted =
      let fits : leb (length (token_text c.payload kind.value)) (length l.stale) ≡ true =
        ground (arith, kind.short) in
      let read : read_id r l.stale c.payload kind.value ≡ done (pos id) =
        rw (fits, kind.number) refl in
      let more : ltb_ℤ (pos 0) (pos id) ≡ true = ground (arith, kind.positive) in
      let rest = del_tokens-plain l p kind.more s' kind.plain in
      let named : del_tokens b rows run later tools r l p (kind.name ∷ kind.value ∷ kind.more) s
          ≡ done s' =
        rw (kind.name_kind, live, kind.named, read, more, deleted, del_tokens) rest in
      rw (kind.object_kind, del_tokens) named

  handle_del_cmd-device :
      (l : Locals Time) (p : Ptr) (id : ℕ) (c : Cmd Time) (s s' : State)
      → IsDelete r l.stale id c
      → s.gateway.bus.cmds p ≡ some c
      → del_device b rows run later tools r l p id s ≡ done s'
      → dispatch b rows run later tools r l p c s ≡ done s'
  unfolding dispatch handle_del_cmd
  handle_del_cmd-device l p id c s s' kind live deleted =
      let is_del : str_eq c.cmd (codes "del") ≡ true =
        ap (λ x. str_eq x (codes "del")) kind.del ∙ str_eq_refl (codes "del") in
      let here : str_eq c.address (codes "liegw") ≡ true =
        ap (λ x. str_eq x (codes "liegw")) kind.liegw ∙ str_eq_refl (codes "liegw") in
      let tokens = del_tokens-device l p id c s s' kind live deleted in
      rw (is_del, live, here, kind.parsed, dispatch, handle_del_cmd) tokens

  -- For a command to delete a device that the container holds, the only one of the bus and without
  -- a time for its next run, the handler deletes the rows of its channels, its modules and the
  -- device and no other row, takes it out of the container, the others in their order, and saves
  -- the command as handled and frees it; jsmn reads the payload as an object with the name
  -- `device`, the device's id, which is positive, and no string behind it, no device before it has
  -- that id, and it stands nowhere before.
  pub lbus_handler-deletes :
      (h : HasRows rows) (is_due : Time → Time → Bool) (l : Locals Time) (p : Ptr) (c : Cmd Time)
      (d : Ptr) (before after : List Ptr) (s : State)
      → s.current ≡ none
      → IsOnly p c s.gateway.bus
      → c.tmnexthandle ≡ none
      → IsDelete r l.stale (s.devices d).device.id c
      → members s.ldc ≡ before ++ d ∷ after
      → All (λ e. ((s.devices e).device.id == (s.devices d).device.id) ≡ false) before
      → All (λ e. (e == d) ≡ false) before
      → (s' : State) × (lbus_handler b rows run later tools r is_due l s ≡ done s')
        × (members s'.ldc ≡ before ++ after)
        × ((x : DbRow)
            → h.there x s'.gateway.db ≡ (not (is_row_of (s.devices d) x) && h.there x s.gateway.db))
        × (s'.gateway.bus.cmds p ≡ none)
        × (s'.gateway.bus.saved
            ≡ s.gateway.bus.saved ++ (record c { handled = true; tmhandled = some l.now } ∷ []))
  unfolding look_up get_device_by_id del_device delete_ldevice
  lbus_handler-deletes h is_due l p c d before after s start only due kind split ids others =
      let id = (s.devices d).device.id in
      let n : Node = record { con = only.con; lcmd = some p } in
      let s₁ = taken b rows run later tools r (some p) n s in
      let s₂ = delete_ldevice b rows run later tools r d s₁ in
      let only₂ : IsOnly p c s₂.gateway.bus = record {
        con = only.con;
        chain = only.chain;
        live = only.live;
      } in
      let (bus', ran, freed, saved, _, _) = handled-only b rows run later tools r l p c s₂ only₂ in
      let begun =
        lbus_handler-first b rows run later tools r is_due l p c n [] s start only.chain refl
          only.live due in
      let end : State = record s₂ { gateway = record s₂.gateway { bus = bus' } } in
      let found =
        get_device-at (λ e. (s.devices e).device.id == id) l.ldc_allocated before d after s.ldc
          split ids ((==_iff id id).1 refl) in
      let deleted : del_device b rows run later tools r l p id s₁ ≡ done end =
        rw (found, ran, del_device, look_up, get_device_by_id) refl in
      let (_, left) = remove-members d s.ldc before after split others in
      (
        end,
        begun ∙ handle_del_cmd-device l p id c s₁ end kind only.live deleted,
        left,
        λ x. deleted-there rows h (s.devices d) x s.gateway.db,
        freed,
        saved,
      )
