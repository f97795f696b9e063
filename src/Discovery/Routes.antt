-- ===== src/Discovery/Routes.antt =====
-- `LDCcheckForNewDevices` of devicecontainer.c: the table of routes, whose tokens are those of jsmn, a
-- parameter, and the search for the addresses in it.
use lielas.Base.{
  ℕ, suc, ◌+◌, Bool, true, false, not, ◌&&◌, Option, none, some, List, [], ◌∷◌, ◌++◌, Bytes, ◌==◌,
  ltb, codes, if◌then◌else◌, get_elem?, length, set, Run, done, fault, ◌>>=◌,
}
use lielas.Tm.{Tm}
use lielas.Json.{Token, token_text, is_named}
use lielas.Device.Slots.{Ptr}
use lielas.Device.Container.{missing, empty, holds, get_device_by_address}
use lielas.Device.Container.Saving.{Library}
use lielas.Sql.{Server}
use lielas.Handler.Coap.{Request, Reply}
use lielas.Handler.Logger.{string_of}
use lielas.Handler.Runmode.{Calendar}
use lielas.Handler.Scan.{DataTable, TimeText, Target}
use lielas.Discovery.{Env, SearchState, Step, ◌>>?◌, give, stop, lost}
use lielas.Discovery.Setup.{allocates, new_device}

-- A token with its other kinds: an array has the count of its members.
pub record TableToken : Type 0 where
  pub token : Token
  pub is_array : Bool
  pub size : ℕ

-- `RPL_TABLE_LEN`
abbrev pub table_size : ℕ
table_size = 10000

-- The bytes of a token up to a blank, into `adr` from index `i` on. Only a blank puts a zero behind
-- them.
unfoldable pub copy_address : (i : ℕ) → Bytes → (adr : Bytes) → Run Bytes
copy_address i [] adr = done adr
copy_address i (b ∷ s) adr =
    let next = copy_address (i + 1) s (set adr i b) in
    if ltb i (length adr) then (if b == b' ' then done (set adr i 0) else next) else fault

-- The string in `adr`; without a zero it is read beyond the buffer.
unfoldable pub string_in : Bytes → Run Bytes
string_in [] = fault
string_in (b ∷ s) = let rest = string_in s in if b == 0 then done [] else rest >>= λ r. done (b ∷ r)

-- The text of the table at the start of a token.
unfoldable pub at_end : Bytes → TableToken → Bool
at_end text n = elim (get_elem? text n.token.start) [ none ↦ true | some b ↦ b == 0 ]

abbrev pub is_routes : Bytes → TableToken → Bool
is_routes text n = n.token.is_string && is_named (codes "Routes") text n.token

module _ {Real W : Type 0} (c : Library Real) (v : Server) (e : Env Real)
    (transmit : Request → Reply → W → Reply × W) (t : DataTable) (cal : Calendar)
    (x : TimeText cal.Broken) (mktime : Tm → Tm) (print : Target → (cnr raw : ℕ) → Bytes)
    (text : Bytes) where
  abbrev Asks : Type 0 → Type 0
  Asks A = Step Real W v.Db A

  -- `LDCgetDeviceByAddress`, which makes a container if there is none.
  unfoldable pub find_device : Bytes → Asks (Option Ptr)
  find_device address s =
      let calls : ℕ = elim s.ldc [
        | missing ↦ suc s.loads.calls
        | empty ↦ s.loads.calls
        | holds f rest ↦ s.loads.calls
      ] in
      let (failed, found, ldc') =
        get_device_by_address s.devices (allocates c s.loads.calls) address s.ldc in
      done (some found, record s { ldc = ldc'; loads = record s.loads { calls = calls } })

  -- The address that a token begins with.
  unfoldable pub read_address : Token → Asks Bytes
  read_address k s = copy_address 0 (token_text text k) s.adr >>= λ adr'.
      string_in adr' >>= λ address. done (some address, record s { adr = adr' })

  -- A token behind "Routes"; true where the device was known.
  unfoldable pub check_route : TableToken → Asks Bool
  check_route n =
      if n.token.is_string
      then (read_address n.token >>? λ address. find_device address >>? λ found. elim found [
        | some p ↦ give true
        | none ↦ new_device c v e transmit t cal x mktime print address >>? λ p. give false
      ])
      else give true

  unfoldable pub check_routes : List TableToken → Asks Bool
  check_routes [] = give true
  check_routes (n ∷ ns) =
      let rest = check_routes ns in
      if at_end text n then give true else check_route n >>? λ known. rest

  -- The first token behind "Routes" and its array is not tested for the end of the table; a token
  -- behind the last one was not written.
  unfoldable pub check_first : List TableToken → Asks Bool
  check_first [] = lost
  check_first (n ∷ ns) = check_route n >>? λ known. check_routes ns

  unfoldable pub find_routes : List TableToken → Asks Bool
  find_routes [] = give true
  find_routes (n ∷ []) =
      if at_end text n then give true else if is_routes text n then lost else give true
  find_routes (n ∷ a ∷ ns) =
      let rest = find_routes (a ∷ ns) in
      if at_end text n
      then give true
      else if not (is_routes text n)
      then rest
      else if not a.is_array
      then stop
      else if a.size == 0
      then stop
      else check_first ns

module _ {Real W : Type 0} (c : Library Real) (v : Server) (e : Env Real)
    (transmit : Request → Reply → W → Reply × W) (t : DataTable) (cal : Calendar)
    (x : TimeText cal.Broken) (mktime : Tm → Tm) (print : Target → (cnr raw : ℕ) → Bytes)
    (parse : Bytes → Option (List TableToken)) where
  -- In the last seconds of a minute the table is read, if there is a file that fits. `allocated` is
  -- false where `coap_create_buf` fails, and `parse` gives nothing where jsmn reports an error
  -- other than a missing end.
  unfoldable pub check_for_new_devices :
      (second : ℕ)
      → (allocated : Bool) → (file : Option Bytes) → SearchState Real W v.Db
      → Run (SearchState Real W v.Db)
  check_for_new_devices second allocated none s = done s
  check_for_new_devices second allocated (some file) s =
      if ltb second 58
      then done s
      else if not allocated
      then done s
      else if not (ltb (length file + 1) table_size)
      then done s
      else elim (parse (string_of (file ++ 0 ∷ []))) [
        | none ↦ done s
        | some ns ↦
            find_routes c v e transmit t cal x mktime print (file ++ 0 ∷ []) ns s >>= λ (ended, s').
            done s'
      ]
