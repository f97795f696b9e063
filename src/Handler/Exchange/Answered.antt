-- ===== src/Handler/Exchange/Answered.antt =====
-- An exchange that is answered, and one whose address is not found.
use lielas.Base.{
  ℕ, ap, Bool-cases, inl, inr, Run-cases, out_of_fuel, ◌<◌, ◌∙◌, ◌≡◌, refl, true, false, some, List,
  [], ◌∷◌, ◌++◌, Bytes, arith, length, if◌then◌else◌, done, fault,
}
use lielas.Handler.Blocks.{
  Coption, uri_host, CoapBuf, Client, Pdu, SendAnswer, sent_request, content, message_handler,
  receive,
}
use lielas.Handler.Blocks.Collected.{AnswerOf, IsEnded, receive-collected}
use lielas.Handler.Exchange.{
  Codec, Start, Event, message, returned, waiting, add_uri, payload_of, close, wait_answer, prepare,
  handle_send_cmd,
}

-- Messages that come in one after another while a retransmission is open, and then its end.
abbrev pub events_of : List (SendAnswer × Pdu) → Event → List Event
events_of [] last = last ∷ []
events_of ((a, received) ∷ ms) last = message false a true received ∷ events_of ms last

fault-done : {A : Type 0} {a : A} → fault ≡ done a → ⊥
fault-done e = cc

out_of_fuel-done : {A : Type 0} {a : A} → out_of_fuel ≡ done a → ⊥
out_of_fuel-done e = cc

module _ (c : Codec) where
  wait_answer-over :
      (a : SendAnswer) (p : Pdu) (s : Client)
      → s.ready ≡ true
      → wait_answer c (message true a true p ∷ []) s ≡ done (returned, close c s)
  unfolding wait_answer
  wait_answer-over a p s h = simp h

  wait_answer-message :
      (a : SendAnswer) (p : Pdu) (es : List Event) (s s' : Client)
      → message_handler c.encode a true p s ≡ done s'
      → wait_answer c (message false a true p ∷ es) s ≡ wait_answer c es s'
  unfolding wait_answer
  wait_answer-message a p es s s' e = elim (Bool-cases s.ready) [
    | inl h ↦ simp (h, e)
    | inr h ↦ simp (h, e)
  ]

  wait_answer-receive :
      (ms : List (SendAnswer × Pdu)) (a : SendAnswer) (p : Pdu) (s s' : Client)
      → receive c.encode ms s ≡ done s'
      → s'.ready ≡ true
      → wait_answer c (events_of ms (message true a true p)) s ≡ done (returned, close c s')
  unfolding receive
  wait_answer-receive [] a p s s' e h =
      let same : s ≡ s' = ap (λ r. elim r [ done x ↦ x | fault ↦ s | out_of_fuel ↦ s ]) e in
      let over : s.ready ≡ true = ap (λ (x : Client). x.ready) same ∙ h in
      wait_answer-over a p s over ∙ ap (λ x. done (returned, close c x)) same
  wait_answer-receive ((b, received) ∷ ms) a p s s' e h =
      elim (Run-cases (message_handler c.encode b true received s)) [
        | inl bad ↦ absurd (fault-done (rw bad at e))
        | inr (inl bad) ↦ absurd (out_of_fuel-done (rw bad at e))
        | inr (inr (s₁, ran)) ↦
            wait_answer-message b received (events_of ms (message true a true p)) s s₁ ran
            ∙ wait_answer-receive ms a p s₁ s' (rw ran at e) h
      ]

  -- The options of a request.
  abbrev pub options_of : Start → Bytes → Client → List Coption
  options_of t uri_str s =
      let u = c.split_uri uri_str in
      let options = add_uri c u s.optlist in
      if t.host_differs
      then c.insert (record { key = uri_host; value = u.host }) options
      else options

  -- An exchange whose address is found and whose request, a confirmable one, is sent returns once
  -- its answer is there, in any number of blocks and with no silence between its messages: the
  -- bytes of its messages are in the buffer one behind another with a zero behind them, the status
  -- is 2.05, and no option is left; each message has the token of the request, the code 2.05 and no
  -- reset, each but the last has more to come and memory for the request of the next block, the
  -- last has no Observe option, and the buffer has room for the bytes and the zero.
  pub handle_send_cmd-answer :
      (t : Start) (ms : List (SendAnswer × Pdu)) (a : SendAnswer) (p : Pdu)
      (uri_str total buf : Bytes) (cb : CoapBuf) (method : ℕ) (post : Bytes) (s : Client)
      → t.resolved ≡ true
      → t.has_context ≡ true
      → t.sent_ok ≡ true
      → t.confirmable ≡ true
      → AnswerOf (options_of t uri_str s) ms total
      → cb.buf ≡ some buf
      → length buf ≡ cb.buf_size
      → length total < cb.buf_size
      → (s' : Client) × (handle_send_cmd c t
            (events_of ms (message true a true p))
            uri_str
            cb
            method
            post
            s
          ≡ done (returned, s'))
        × IsEnded s'.mycoapbuf total
        × (s'.mycoapbuf.status ≡ content)
        × (s'.optlist ≡ [])
  unfolding handle_send_cmd prepare close
  handle_send_cmd-answer t ms a p uri_str total buf cb method post s found context sent con answer
        is full short =
      let options = options_of t uri_str s in
      let s₁ = prepare c uri_str cb method post s in
      let request = sent_request true method options s₁.payload in
      let s₃ : Client = record s₁ { optlist = options; wire = s₁.wire ++ request ∷ [] } in
      let (s', ran, ended, status, over) =
        receive-collected c.encode ms total [] s₃ answer
          (record { rest = buf; buf = is; len = refl; size = full }) (omega (arith, short)) in
      let waited = wait_answer-receive ms a p s₃ s' ran over in
      (
        close c s',
        simp (found, context, sent, con) waited,
        record { rest = ended.rest; buf = ended.buf; len = ended.len },
        status,
        refl,
      )

  -- A call whose address is not found keeps its options: the request of the next call, which is
  -- sent, has them besides its own.
  pub handle_send_cmd_stale :
      (t t' : Start) (es : List Event) (uri_str uri_str' post post' : Bytes) (cb cb' : CoapBuf)
      (method method' : ℕ) (s : Client)
      → t.resolved ≡ false
      → t'.resolved ≡ true
      → t'.has_context ≡ true
      → t'.sent_ok ≡ true
      → t'.confirmable ≡ true
      → t'.host_differs ≡ false
      → (s₁ : Client) × (s₂ : Client) × (handle_send_cmd c t es uri_str cb method post s
          ≡ done (returned, s₁))
        × (handle_send_cmd c t' [] uri_str' cb' method' post' s₁ ≡ done (waiting, s₂))
        × (s₂.wire
            ≡ s.wire
              ++ sent_request true method'
                  (add_uri c (c.split_uri uri_str') (add_uri c (c.split_uri uri_str) s.optlist))
                  (payload_of c method' post')
                ∷ [])
  unfolding handle_send_cmd prepare wait_answer
  handle_send_cmd_stale t t' es uri_str uri_str' post post' cb cb' method method' s lost found
        context sent con same =
      let s₁ = prepare c uri_str cb method post s in
      let p₂ = prepare c uri_str' cb' method' post' s₁ in
      let s₂ : Client = record p₂ {
        wire = p₂.wire ++ sent_request true method' p₂.optlist p₂.payload ∷ [];
      } in
      (s₁, s₂, simp lost, simp (found, context, sent, con, same), refl)
