-- ===== src/Discovery/Known.antt =====
-- The search for new devices in a table of devices that are known.
use lielas.Base.{
  ℕ, suc, ◌+◌, ◌<◌, ◌≤◌, ◌≡◌, refl, ap, ◌∙◌, true, false, Option, some, List, [], ◌∷◌, ◌++◌, Bytes,
  ◌==◌, ltb, length, set, drop, All, done, arith, str_eq, append_assoc, length-append, length-drop,
  inl, inr, Bool-cases,
}
use lielas.Tm.{Tm}
use lielas.Json.{Token, token_text}
use lielas.Device.Slots.{Ptr}
use lielas.Device.Container.{
  Device, Ldc, missing, empty, holds, search, get_device, get_device_by_address,
}
use lielas.Device.Container.Lookup.{members}
use lielas.Device.Container.Saving.{Library}
use lielas.Sql.{Server}
use lielas.Handler.Coap.{Request, Reply}
use lielas.Handler.Logger.{string_of}
use lielas.Handler.Runmode.{Calendar}
use lielas.Handler.Scan.{DataTable, TimeText, Target}
use lielas.Discovery.{Env, SearchState}
use lielas.Discovery.Routes.{
  TableToken, table_size, copy_address, string_in, at_end, is_routes, find_device, read_address,
  check_route, check_routes, check_first, find_routes, check_for_new_devices,
}

-- An address: no blank, and no zero.
abbrev pub IsAddress : Bytes → Type 0
IsAddress a = All (λ b. ((b == b' ') ≡ false) × ((b == 0) ≡ false)) a

set-append :
    (pre : Bytes) (x b : ℕ) (cells : Bytes)
    → set (pre ++ x ∷ cells) (length pre) b ≡ pre ++ b ∷ cells
set-append [] x b cells = refl
set-append (y ∷ pre) x b cells = ap (◌∷◌ y) (set-append pre x b cells)

-- The buffer behind the copying of an address with a blank behind it.
copy_address-copies :
    (pre a rest cells : Bytes)
    → IsAddress a
    → length a < length cells
    → copy_address (length pre) (a ++ b' ' ∷ rest) (pre ++ cells)
      ≡ done (pre ++ (a ++ 0 ∷ drop (suc (length a)) cells))
unfolding copy_address
copy_address-copies pre [] rest [] plain short = elim short [ ]
copy_address-copies pre [] rest (x ∷ cells) plain short =
    let len = length-append pre (x ∷ cells) in
    let inside : ltb (length pre) (length (pre ++ x ∷ cells)) ≡ true = ground (arith, len) in
    rw (inside, set-append pre x 0 cells) refl
copy_address-copies pre (b ∷ a) rest [] plain short = elim short [ ]
copy_address-copies pre (b ∷ a) rest (x ∷ cells) plain short =
    let len = length-append pre (x ∷ cells) in
    let inside : ltb (length pre) (length (pre ++ x ∷ cells)) ≡ true = ground (arith, len) in
    let next = copy_address-copies (pre ++ b ∷ []) a rest cells plain.1 (omega arith) in
    let count : length (pre ++ b ∷ []) ≡ length pre + 1 = length-append pre (b ∷ []) in
    let before = append_assoc pre (b ∷ []) cells in
    let behind = append_assoc pre (b ∷ []) (a ++ 0 ∷ drop (suc (length a)) cells) in
    rw (inside, plain.0.0, set-append pre x b cells)
      (rw (← count, ← before) (next ∙ ap done behind))

pub string_in-reads : (a rest : Bytes) → IsAddress a → string_in (a ++ 0 ∷ rest) ≡ done a
unfolding string_in
string_in-reads [] rest plain = refl
string_in-reads (b ∷ a) rest plain = rw (plain.0.1, string_in-reads a rest plain.1) refl

-- The bytes of a token begin with an address and a blank, and a device of the container has the
-- address.
pub record IsKnown (text : Bytes) (devices : Ptr → Device) (ldc : Ldc) (room : ℕ) (n : TableToken)
    : Type 0 where
  pub address : Bytes
  pub rest : Bytes
  pub written : token_text text n.token ≡ address ++ b' ' ∷ rest
  pub plain : IsAddress address
  pub fits : length address < room
  pub device : Ptr
  pub found : search (λ p. str_eq (devices p).address address) (members ldc) ≡ some device

-- Entries that stand in the table; each string among them begins with the address of a device.
abbrev pub AreKnown : (text : Bytes) → (Ptr → Device) → Ldc → (room : ℕ) → List TableToken → Type 0
AreKnown text devices ldc room ns =
    All
      (λ n. (at_end text n ≡ false) × (n.token.is_string ≡ true → IsKnown text devices ldc room n))
      ns

module _ {Real W : Type 0} (c : Library Real) (v : Server) (e : Env Real)
    (transmit : Request → Reply → W → Reply × W) (t : DataTable) (cal : Calendar)
    (x : TimeText cal.Broken) (mktime : Tm → Tm) (print : Target → (cnr raw : ℕ) → Bytes)
    (text : Bytes) where
  find_device-known :
      (s : SearchState Real W v.Db) (l : Ldc) (a : Bytes) (d : Ptr)
      → search (λ p. str_eq (s.devices p).address a) (members l) ≡ some d
      → find_device c v e transmit t cal x mktime print text a (record s { ldc = l })
        ≡ done (some (some d), record s { ldc = l })
  unfolding find_device get_device_by_address get_device search
  find_device-known s missing a d found = cc found
  find_device-known s empty a d found = cc found
  find_device-known s (holds f rest) a d found =
      ap (λ o. done (some o, record s { ldc = holds f rest })) found

  read_address-known :
      (s : SearchState Real W v.Db) (k : Token) (a rest : Bytes)
      → token_text text k ≡ a ++ b' ' ∷ rest
      → IsAddress a
      → length a < length s.adr
      → read_address c v e transmit t cal x mktime print text k s
        ≡ done (some a, record s { adr = a ++ 0 ∷ drop (suc (length a)) s.adr })
  unfolding read_address
  read_address-known s k a rest written plain fits =
      let copied = copy_address-copies [] a rest s.adr plain fits in
      let behind = drop (suc (length a)) s.adr in
      rw (written, copied) (rw (string_in-reads a behind plain) refl)

  -- A route to a known device changes nothing but the buffer, whose size stays.
  check_route-known :
      (room : ℕ) (s : SearchState Real W v.Db) (n : TableToken)
      → length s.adr ≡ room
      → (n.token.is_string ≡ true → IsKnown text s.devices s.ldc room n)
      → (adr' : Bytes) × (check_route c v e transmit t cal x mktime print text n s
          ≡ done (some true, record s { adr = adr' }))
        × (length adr' ≡ room)
  unfolding check_route read_address
  check_route-known room s n size known = elim (Bool-cases n.token.is_string) [
    | inl string ↦
        let k = known string in
        let adr' = k.address ++ 0 ∷ drop (suc (length k.address)) s.adr in
        let read =
          read_address-known s n.token k.address k.rest k.written k.plain
            (omega (arith, size, k.fits)) in
        let there = find_device-known (record s { adr = adr' }) s.ldc k.address k.device k.found in
        let len = length-append k.address (0 ∷ drop (suc (length k.address)) s.adr) in
        let dropped = length-drop (suc (length k.address)) s.adr in
        (adr', rw (string, read) (rw there refl), omega (arith, len, dropped, size, k.fits))
    | inr other ↦ (s.adr, rw other refl, size)
  ]

  check_routes-known :
      (room : ℕ) (s : SearchState Real W v.Db) (ns : List TableToken)
      → length s.adr ≡ room
      → AreKnown text s.devices s.ldc room ns
      → (adr' : Bytes) × (check_routes c v e transmit t cal x mktime print text ns s
          ≡ done (some true, record s { adr = adr' }))
  unfolding check_routes
  check_routes-known room s [] size known = (s.adr, refl)
  check_routes-known room s (n ∷ ns) size known =
      let (adr₁, checked, size₁) = check_route-known room s n size known.0.1 in
      let (adr₂, rest) = check_routes-known room (record s { adr = adr₁ }) ns size₁ known.1 in
      (adr₂, rw (known.0.0) (rw checked rest))

-- The entries of a table of routes: an object, the text "Routes", an array that is not empty, and
-- its members.
pub record IsTable (text : Bytes) (ns : List TableToken) (n : TableToken) (routes : List TableToken)
    : Type 0 where
  pub object : TableToken
  pub title : TableToken
  pub array : TableToken
  pub entries : ns ≡ object ∷ title ∷ array ∷ n ∷ routes
  pub object_there : at_end text object ≡ false
  pub object_plain : object.token.is_string ≡ false
  pub title_there : at_end text title ≡ false
  pub title_named : is_routes text title ≡ true
  pub array_kind : array.is_array ≡ true
  pub array_size : (array.size == 0) ≡ false

module _ {Real W : Type 0} (c : Library Real) (v : Server) (e : Env Real)
    (transmit : Request → Reply → W → Reply × W) (t : DataTable) (cal : Calendar)
    (x : TimeText cal.Broken) (mktime : Tm → Tm) (print : Target → (cnr raw : ℕ) → Bytes)
    (text : Bytes) where
  -- The members of the array are reached.
  pub find_routes-table :
      {ns : List TableToken} {n : TableToken} {routes : List TableToken}
      → IsTable text ns n routes
      → (s : SearchState Real W v.Db)
      → find_routes c v e transmit t cal x mktime print text ns s
        ≡ check_first c v e transmit t cal x mktime print text (n ∷ routes) s
  unfolding find_routes
  find_routes-table table s =
      let not_title : is_routes text table.object ≡ false = rw table.object_plain refl in
      rw (table.entries) (
        rw
          (
            table.object_there, not_title, table.title_there, table.title_named, table.array_kind,
            table.array_size,
          )
          refl)

module _ {Real W : Type 0} (c : Library Real) (v : Server) (e : Env Real)
    (transmit : Request → Reply → W → Reply × W) (t : DataTable) (cal : Calendar)
    (x : TimeText cal.Broken) (mktime : Tm → Tm) (print : Target → (cnr raw : ℕ) → Bytes)
    (parse : Bytes → Option (List TableToken)) where
  -- A search in a table of routes whose addresses, each with a blank behind it, are all those of
  -- devices in the container sends nothing and changes neither the database nor the container: only
  -- the buffer for an address is written; it runs in the last two seconds of a minute, the entries
  -- of the table are those of a text with the routes in one array that is not empty, and the table
  -- and the addresses fit their buffers.
  pub check_for_new_devices-known :
      (second : ℕ) (file : Bytes) (s : SearchState Real W v.Db) (ns : List TableToken)
      (n : TableToken) (routes : List TableToken)
      → 58 ≤ second
      → length file + 1 < table_size
      → parse (string_of (file ++ 0 ∷ [])) ≡ some ns
      → IsTable (file ++ 0 ∷ []) ns n routes
      → AreKnown (file ++ 0 ∷ []) s.devices s.ldc (length s.adr) (n ∷ routes)
      → (adr' : Bytes) × (check_for_new_devices c v e transmit t cal x mktime print parse second
            true
            (some file)
            s
          ≡ done (record s { adr = adr' }))
  unfolding check_for_new_devices find_routes check_first
  check_for_new_devices-known second file s ns n routes late short parsed table known =
      let text = file ++ 0 ∷ [] in
      let (adr₁, checked, size₁) =
        check_route-known c v e transmit t cal x mktime print text (length s.adr) s n refl
          known.0.1 in
      let (adr₂, rest) =
        check_routes-known c v e transmit t cal x mktime print text (length s.adr)
          (record s { adr = adr₁ }) routes size₁ known.1 in
      let due : ltb second 58 ≡ false = ground (arith, late) in
      let fits : ltb (length file + 1) table_size ≡ true = ground (arith, short) in
      let object = find_routes-table c v e transmit t cal x mktime print text table s in
      (adr₂, rw (due, fits, parsed, object) (rw checked (rw rest refl)))
