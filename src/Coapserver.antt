-- ===== src/Coapserver.antt =====
-- The resource `/lbus` of the CoAP server, liegw/src/coap/coapserver.c: a command that is put there
-- is read, saved and added to the bus, and the answer lists the commands of the bus, which
-- `lbus_printCmd` of lbus.c prints. Of the texts that are printed only the lengths are modelled.
-- The options of the answer, and a request for the time, are left out.
pub mod Put
use lielas.Base.{
  ℕ, zero, suc, ◌+◌, ◌-◌, Bool, true, false, not, ◌&&◌, Option, none, some, List, [], ◌∷◌, Bytes,
  if◌then◌else◌, ltb, leb, ◌==◌, min, length, codes, Run, done, fault, out_of_fuel, ◌>>=◌,
}
use lielas.Json.{Token, token_text, is_named}
use lielas.Lbus.Queue.{Ptr, Cmd, Bus, add, get_first_cmd, get_next_cmd}
use lielas.Lbus.Load.{LbusTable, create_cmd, address_size, user_size, cmd_text_size, is_empty}

-- `COAP_RESPONSE_CODE` of 205, 400 and 500.
abbrev pub code_content : ℕ
code_content = 69

abbrev pub code_bad_request : ℕ
code_bad_request = 128

abbrev pub code_server_error : ℕ
code_server_error = 160

-- `MAX_PAYLOAD_SIZE`
abbrev pub max_payload_size : ℕ
max_payload_size = 1000

-- The members of a command that a request can set.
pub data Member : Type 0 where
  address user cmd payload : Member

-- The name of the user is compared in the length of the name of the command.
unfoldable pub member_at : Bytes → Token → Option Member
member_at text t =
    if is_named (codes "address") text t
    then some address
    else if is_named (codes "use") text t
    then some user
    else if is_named (codes "cmd") text t
    then some cmd
    else if is_named (codes "payload") text t
    then some payload
    else none

unfoldable pub size_of : Member → ℕ
size_of address = address_size
size_of user = user_size
size_of cmd = cmd_text_size
size_of payload = cmd_text_size

-- The outcome of a request: an answer with this code, or the end of the program.
pub data Outcome : Type 0 where
  answered : ℕ → Outcome
  exited : Outcome

module _ {Time : Type 0} where
  unfoldable pub put_member : Member → Bytes → Cmd Time → Cmd Time
  put_member address v c = record c { address = v }
  put_member user v c = record c { user = v }
  put_member cmd v c = record c { cmd = v }
  put_member payload v c = record c { payload = v }

  -- `memcpy` of the value and the zero behind it; a value as long as its array has its zero written
  -- behind the array. True where the value is too long.
  unfoldable pub copy_member : Member → Bytes → Cmd Time → Run (Bool × Cmd Time)
  copy_member m v c =
      if ltb (size_of m) (length v)
      then done (true, c)
      else if length v == size_of m
      then fault
      else done (false, put_member m v c)

  -- The loop over the tokens, also over those inside of a value. The token behind a name is
  -- skipped; a value that is too long ends the loop.
  unfoldable pub put_members : Bytes → List Token → Cmd Time → Run (Bool × Cmd Time)
  put_members text [] c = done (false, c)
  put_members text (t ∷ []) c =
      if t.is_string
      then (elim (member_at text t) [ none ↦ done (false, c) | some m ↦ fault ])
      else done (false, c)
  put_members text (t ∷ v ∷ ts) c =
      let next = put_members text (v ∷ ts) c in
      if t.is_string
      then (elim (member_at text t) [
        | none ↦ next
        | some m ↦ copy_member m (token_text text v) c >>= λ (failed, c').
            if failed then done (true, c') else put_members text ts c'
      ])
      else next

-- The length of a text that is printed, and whether it is a time that `strftime` prints.
pub record Piece : Type 0 where
  pub is_time : Bool
  pub size : ℕ

-- `snprintf(&s[len], max - len, …)`, where `room` cells are left in the object from `s` on: what is
-- written ends before `max`, but with `len` behind `max` the size wraps around and nothing is cut
-- off. `strftime` gives 0 where there is no room.
unfoldable pub print_piece : (max room : ℕ) → Piece → (len : ℕ) → Run ℕ
print_piece max room p len =
    let last = if ltb len max then len + min p.size (max - len - 1) else len + p.size in
    let result = if p.is_time && leb len max && leb (max - len) p.size then len else len + p.size in
    if len == max then done result else if ltb last room then done result else fault

unfoldable pub print_pieces : (max room : ℕ) → List Piece → (len : ℕ) → Run ℕ
print_pieces max room [] len = done len
print_pieces max room (p ∷ ps) len =
    print_piece max room p len >>= λ len'. print_pieces max room ps len'

-- The answer: the commands one behind another in the local buffer, each with the whole size of the
-- buffer as its limit. `pieces` are the texts that are printed of a command.
module _ {Time : Type 0} (pieces : Cmd Time → List Piece) where
  -- `lbus_printCmd`
  unfoldable pub print_cmd : (max room : ℕ) → Cmd Time → Run ℕ
  print_cmd max room c = print_pieces max room (pieces c) 0

  unfoldable pub print_cmds : ℕ → Option Ptr → (len : ℕ) → Bus Time → Run (ℕ × Bus Time)
  print_cmds fuel none len s = done (len, s)
  print_cmds zero (some p) len s = out_of_fuel
  print_cmds (suc fuel) (some p) len s = elim (s.cmds p) [
    | none ↦ fault
    | some c ↦ print_cmd max_payload_size (max_payload_size - len) c >>= λ n.
        get_next_cmd s >>= λ (next, s'). print_cmds fuel next (len + n) s'
  ]

  -- A round for each container of the chain.
  unfoldable pub list_cmds : Bus Time → Run (ℕ × Bus Time)
  list_cmds s = let (first, s') = get_first_cmd s in print_cmds (length s'.chain) first 0 s'

-- What a request finds: its text, none without data; and what `malloc` and the clock give.
pub record Request (Time : Type 0) : Type 0 where
  pub text : Option Bytes
  pub allocated : Bool
  pub new_cmd : Option Ptr
  pub new_con : Option Ptr
  pub fresh : Cmd Time
  pub now : Time

module _ (t : LbusTable) {Time : Type 0} (strptime : Bytes → Time)
    (parse : Bytes → Option (List Token)) where
  -- The command that was read is added and saved, if it has a name, an address and a user; the
  -- result of `lbus_add` is not used.
  unfoldable pub accept : Request Time → Cmd Time → Bus Time → Run (Outcome × Bus Time)
  accept r c s =
      let c' = record c { tmrecv = r.now } in
      if is_empty c.cmd
      then done (answered code_bad_request, s)
      else if is_empty c.address
      then done (answered code_bad_request, s)
      else if is_empty c.user
      then done (answered code_bad_request, s)
      else (add r.new_cmd r.new_con c' true s >>= λ (_, s'). done (answered code_content, s'))

  -- What is read into the command that `lbus_createCmd` gives.
  unfoldable pub put_tokens :
      Request Time
      → Bytes
      → List Token
      → Bus Time
      → Option (Cmd Time)
      → t.Db
      → Run (Outcome × Bus Time × t.Db)
  put_tokens r text tokens s none d = done (answered code_server_error, s, d)
  put_tokens r text tokens s (some c) d = put_members text tokens c >>= λ (failed, c').
      if failed
      then done (answered code_bad_request, s, d)
      else (accept r c' s >>= λ (o, s'). done (o, s', d))

  -- Up to the answer. A text that jsmn refuses ends the program.
  unfoldable pub put_cmd : Request Time → Bus Time → t.Db → Run (Outcome × Bus Time × t.Db)
  put_cmd r s d = elim r.text [
    | none ↦ done (answered code_server_error, s, d)
    | some text ↦ elim (parse text) [
      | none ↦ done (exited, s, d)
      | some tokens ↦
          let (created, d') = create_cmd t strptime r.allocated 0 r.fresh d in
          put_tokens r text tokens s created d'
    ]
  ]

  -- With the answer, which only an added command gets.
  unfoldable pub hnd_put_lbus :
      (pieces : Cmd Time → List Piece)
      → Request Time
      → Bus Time
      → t.Db
      → Run (Outcome × Bus Time × t.Db)
  hnd_put_lbus pieces r s d = put_cmd r s d >>= λ (o, s', d'). elim o [
    | exited ↦ done (exited, s', d')
    | answered code ↦
        if code == code_content
        then (list_cmds pieces s' >>= λ (len, s''). done (answered code, s'', d'))
        else done (answered code, s', d')
  ]
