-- ===== src/Handler/Exchange.antt =====
-- `handle_send_cmd` of liegw/src/coap/mycoap.c: one exchange with a device, from the request to the
-- end of its answer or to a silence. libcoap and the network are parameters; what comes in is a
-- list of events. The buffer is the caller's, and stays after `mycoapbuf = 0`.
pub mod Answered
use lielas.Base.{
  ℕ, Bool, true, false, not, ◌&&◌, Option, none, some, List, [], ◌∷◌, ◌++◌, Bytes, ◌==◌,
  if◌then◌else◌, leb, length, Run, done, fault, ◌>>=◌,
}
use lielas.Handler.Blocks.{
  Coption, uri_host, uri_path, uri_query, CoapBuf, Client, Pdu, SendAnswer, sent_request,
  message_handler,
}

-- The parts of an address.
pub record Uri : Type 0 where
  pub host : Bytes
  pub path : Bytes
  pub query : Bytes

-- `coap_split_uri`, `coap_split_path`, `coap_split_query`; `coap_insert` with `order_opts`; the
-- payload that `check_segment` and `decode_segment` make of a text, none if it is refused; and the
-- encoding of the number of a block.
pub record Codec : Type 0 where
  pub split_uri : Bytes → Uri
  pub split_path : Bytes → List Bytes
  pub split_query : Bytes → List Bytes
  pub insert : Coption → List Coption → List Coption
  pub decode_segment : Bytes → Option Bytes
  pub encode : ℕ → Bytes

-- What the network and libcoap do at the start of an exchange. `host_differs` tells that the text
-- of the address found differs from the host, `confirmable` is the kind of the message, and the
-- other Booleans are false where a call fails.
pub record Start : Type 0 where
  pub resolved : Bool
  pub has_context : Bool
  pub host_differs : Bool
  pub confirmable : Bool
  pub sent_ok : Bool

-- What a round of the loop finds: whether `coap_can_exit`, and then a message, an error of
-- `select`, or a silence of two seconds with the time behind it.
pub data Event : Type 0 where
  message : (can_exit : Bool) → SendAnswer → (has_sent : Bool) → Pdu → Event
  failed : (can_exit : Bool) → Event
  silence : (can_exit : Bool) → (now : ℕ) → Event

-- How a call ends: it returns, or it still waits for more than the events.
pub data Ending : Type 0 where
  returned waiting : Ending

abbrev can_exit_of : Event → Bool
can_exit_of (message e a h p) = e
can_exit_of (failed e) = e
can_exit_of (silence e now) = e

-- `MYCOAP_METHOD_POST` and `MYCOAP_METHOD_PUT`
abbrev method_post : ℕ
method_post = 2

abbrev method_put : ℕ
method_put = 3

module _ (c : Codec) where
  open c use {split_uri, split_path, split_query, insert, decode_segment, encode}

  unfoldable pub insert_all : (Bytes → Coption) → List Bytes → List Coption → List Coption
  insert_all node [] options = options
  insert_all node (v ∷ vs) options = insert_all node vs (insert (node v) options)

  -- The parts of a path or a query, none of an empty one.
  unfoldable pub parts_of : (Bytes → List Bytes) → Bytes → List Bytes
  parts_of split [] = []
  parts_of split (b ∷ s) = split (b ∷ s)

  -- The options for the path and the query, with those that are there.
  unfoldable pub add_uri : Uri → List Coption → List Coption
  add_uri u options =
      insert_all (λ v. record { key = uri_query; value = v }) (parts_of split_query u.query)
        (insert_all (λ v. record { key = uri_path; value = v }) (parts_of split_path u.path)
          options)

  -- A text that is refused leaves no payload.
  unfoldable pub payload_of : (method : ℕ) → Bytes → Bytes
  payload_of method post =
      if method == method_post
      then (elim (decode_segment post) [ none ↦ [] | some p ↦ p ])
      else if method == method_put
      then (elim (decode_segment post) [ none ↦ [] | some p ↦ p ])
      else []

  -- At the end the options are freed.
  unfoldable pub close : Client → Client
  close s = record s { optlist = [] }

  -- `while(!(ready && coap_can_exit(ctx)))`
  unfoldable pub wait_answer : List Event → Client → Run (Ending × Client)
  wait_answer [] s = done (waiting, s)
  wait_answer (e ∷ es) s =
      let round : Run (Ending × Client) = (elim e [
        | message x a has_sent received ↦
            message_handler encode a has_sent received s >>= λ s'. wait_answer es s'
        | failed x ↦ wait_answer es s
        | silence x now ↦ if leb s.max_wait now then done (returned, close s) else wait_answer es s
      ]) in
      if s.ready && can_exit_of e then done (returned, close s) else round

  -- What is set before the address is looked for.
  unfoldable pub prepare : Bytes → CoapBuf → (method : ℕ) → (post : Bytes) → Client → Client
  prepare uri_str cb method post s =
      let u = split_uri uri_str in
      record s {
        ready = false;
        mycoapbuf = record cb { status = 0; len = 0 };
        method = method;
        optlist = add_uri u s.optlist;
        payload = payload_of method post;
      }

  -- The request with its options. Where the address is not found or there is no context the options
  -- stay.
  unfoldable pub handle_send_cmd :
      Start
      → List Event
      → Bytes
      → CoapBuf
      → (method : ℕ) → (post : Bytes) → Client
      → Run (Ending × Client)
  handle_send_cmd t events uri_str cb method post s =
      let s₁ = prepare uri_str cb method post s in
      let host : Coption = record { key = uri_host; value = (split_uri uri_str).host } in
      let options = if t.host_differs then insert host s₁.optlist else s₁.optlist in
      let request = sent_request t.confirmable method options s₁.payload in
      let s₂ = record s₁ { optlist = options } in
      let s₃ = record s₂ { wire = s₂.wire ++ request ∷ [] } in
      if t.resolved && t.has_context
      then (if t.sent_ok
          then (if t.confirmable then wait_answer events s₃ else done (returned, close s₃))
          else done (returned, close s₂))
      else done (returned, s₁)
