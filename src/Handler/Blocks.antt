-- ===== src/Handler/Blocks.antt =====
-- The receiving side of the CoAP client, `check_token`, `coap_new_request` and `message_handler` of
-- liegw/src/coap/mycoap.c: an answer that comes in blocks is collected into the buffer. libcoap,
-- which splits a datagram into the parts of a message and sends, is a parameter: what is sent is
-- recorded, and `SendAnswer` says what the calls return.
pub mod Collected
use lielas.Base.{
  ℕ, zero, suc, ◌+◌, ◌-◌, ◌*◌, Bool, true, false, not, ◌&&◌, ◌||◌, Option, none, some, List, [],
  ◌∷◌, ◌++◌, Bytes, ◌==◌, if◌then◌else◌, ltb, leb, str_eq, length, set, Run, done, fault, ◌>>=◌,
}

pub data Kind : Type 0 where
  con non ack rst : Kind

-- `COAP_OPTION_URI_HOST`, `COAP_OPTION_URI_PORT`, `COAP_OPTION_URI_PATH`, `COAP_OPTION_TOKEN`,
-- `COAP_OPTION_URI_QUERY`, the block options and any other.
pub data Key : Type 0 where
  uri_host uri_port uri_path token uri_query other_key : Key
  block_key : ℕ → Key

pub record Coption : Type 0 where
  pub key : Key
  pub value : Bytes

-- The value of a block option.
pub record Block : Type 0 where
  pub key : ℕ
  pub num : ℕ
  pub more : Bool
  pub szx : ℕ

-- What libcoap finds in a message. `token` is empty where there is no such option.
pub record Pdu : Type 0 where
  pub kind : Kind
  pub code : ℕ
  pub token : Bytes
  pub block : Option Block
  pub body : Option Bytes
  pub subscription : Bool

-- What is sent: a reset, an acknowledgement, or a request with its method, options and payload.
pub data Sent : Type 0 where
  sent_rst sent_ack : Sent
  sent_request : (confirmed : Bool) → (method : ℕ) → List Coption → (payload : Bytes) → Sent

-- `coap_buf`, where `buf` is the whole buffer, or none for a null pointer.
pub record CoapBuf : Type 0 where
  pub buf : Option Bytes
  pub status : ℕ
  pub len : ℕ
  pub buf_size : ℕ

-- The static variables of mycoap.c, with what was sent. Times are counts of ticks.
pub record Client : Type 0 where
  pub mycoapbuf : CoapBuf
  pub method : ℕ
  pub optlist : List Coption
  pub payload : Bytes
  pub ready : Bool
  pub max_wait : ℕ
  pub wire : List Sent

-- Whether a message can be made, whether it can be sent, and the time.
pub record SendAnswer : Type 0 where
  pub allocated : Bool
  pub sendable : Bool
  pub now : ℕ

-- 2.05 in the code of a message.
abbrev pub content : ℕ
content = 69

-- `wait_seconds * COAP_TICKS_PER_SECOND`, with the ticks of libcoap.
abbrev pub wait_ticks : ℕ
wait_ticks = 2 * 1024

-- The value of the first token option.
unfoldable pub own_token : List Coption → Bytes
own_token [] = []
own_token (o ∷ os) =
    let later = own_token os in
    elim o.key [
      | token ↦ o.value
      | uri_host ↦ later
      | uri_port ↦ later
      | uri_path ↦ later
      | uri_query ↦ later
      | other_key ↦ later
      | block_key n ↦ later
    ]

unfoldable pub check_token : Pdu → List Coption → Bool
check_token received options = str_eq received.token (own_token options)

-- The options that a request for the next block repeats.
unfoldable pub repeated : List Coption → List Coption
repeated [] = []
repeated (o ∷ os) =
    let later = repeated os in
    elim o.key [
      | uri_host ↦ o ∷ later
      | uri_port ↦ o ∷ later
      | uri_path ↦ o ∷ later
      | token ↦ o ∷ later
      | uri_query ↦ o ∷ later
      | other_key ↦ later
      | block_key n ↦ later
    ]

-- `for(i = 0; i < len && (cb->len < cb->bufSize-1); i++) buf[cb->len++] = data[i];`
unfoldable pub append_data : (buf_size : ℕ) → Bytes → ℕ → Bytes → Run (ℕ × Bytes)
append_data buf_size [] len buf = done (len, buf)
append_data buf_size (c ∷ cs) len buf =
    if leb buf_size (len + 1)
    then done (len, buf)
    else if ltb len (length buf)
    then append_data buf_size cs (len + 1) (set buf len c)
    else fault

-- The zero behind the data.
unfoldable pub end_data : ℕ × Bytes → Run (ℕ × Bytes)
end_data (len, buf) = if ltb len (length buf) then done (len, set buf len 0) else fault

unfoldable pub take_data : Option Bytes → CoapBuf → Run CoapBuf
take_data none cb = done cb
take_data (some cs) cb = elim cb.buf [
  | none ↦ done cb
  | some buf ↦ append_data cb.buf_size cs cb.len buf >>= λ at.
      end_data at >>= λ (len, buf'). done (record cb { buf = some buf'; len = len })
]

-- `coap_encode_var_bytes` of the number and the size of the next block is the parameter `encode`.
module _ (encode : ℕ → Bytes) where
  unfoldable pub next_block : Block → Coption
  next_block b = record { key = block_key b.key; value = encode ((b.num + 1) * 16 + b.szx) }

  unfoldable pub is_con : Kind → Bool
  is_con con = true
  is_con non = false
  is_con ack = false
  is_con rst = false

  -- The request for the next block, where it can be made. The time to wait starts again if it is
  -- sent.
  unfoldable pub ask_next : SendAnswer → Pdu → Block → Client → Client
  ask_next a received b s =
      let options = repeated s.optlist ++ next_block b ∷ [] in
      let asked = sent_request (is_con received.kind) s.method options s.payload in
      if a.sendable
      then record s { wire = s.wire ++ asked ∷ []; max_wait = a.now + wait_ticks }
      else s

  -- The end of the handler.
  unfoldable pub finish_message : Pdu → Client → Client
  finish_message received s = record s { ready = not received.subscription }

  -- A 2.05 message whose data is in the buffer `cb`. The status is set only when all blocks are
  -- there.
  unfoldable pub place_content : SendAnswer → Pdu → CoapBuf → Client → Client
  place_content a received cb s =
      let waiting = record s { mycoapbuf = record cb { status = 0 } } in
      elim received.block [
        | none ↦ finish_message received (record s { mycoapbuf = cb })
        | some b ↦
            if b.more
            then (if a.allocated
                then ask_next a received b waiting
                else finish_message received waiting)
            else finish_message received (record s { mycoapbuf = cb })
      ]

  unfoldable pub take_content : SendAnswer → Pdu → Client → Run Client
  take_content a received s =
      take_data received.body (record s.mycoapbuf { status = content }) >>= λ cb.
      done (place_content a received cb s)

  -- Another message; its code is the status if it tells of an error.
  unfoldable pub take_other : Pdu → Client → Client
  take_other received s = finish_message received (
      if ltb received.code 128
      then s
      else record s { mycoapbuf = record s.mycoapbuf { status = received.code } })

  -- `has_sent` tells whether the message answers one that is known.
  unfoldable pub message_handler : SendAnswer → (has_sent : Bool) → Pdu → Client → Run Client
  message_handler a has_sent received s =
      let s₀ = record s { mycoapbuf = record s.mycoapbuf { status = 0 } } in
      let reset = record s₀ { wire = s₀.wire ++ sent_rst ∷ [] } in
      let acked = record s₀ { wire = s₀.wire ++ sent_ack ∷ [] } in
      let go = λ (u : Client).
        (if received.code == content
          then take_content a received u
          else done (take_other received u)) in
      if not (check_token received s₀.optlist)
      then done (
          if has_sent
          then s₀
          else (elim received.kind [ con ↦ reset | non ↦ reset | ack ↦ s₀ | rst ↦ s₀ ]))
      else (elim received.kind [ con ↦ go acked | rst ↦ done s₀ | non ↦ go s₀ | ack ↦ go s₀ ])

  -- The messages that come in one after another, each with what the calls return then.
  unfoldable pub receive : List (SendAnswer × Pdu) → Client → Run Client
  receive [] s = done s
  receive ((a, received) ∷ ms) s = message_handler a true received s >>= λ s'. receive ms s'
