-- ===== src/Handler/Blocks/Collected.antt =====
-- The buffer after an answer in blocks.
use lielas.Base.{
  ℕ, ◌+◌, ◌<◌, ◌∙◌, ap, sym, ◌≡◌, refl, Bool, Bool-cases, inl, inr, true, false, none, some, List,
  [], ◌∷◌, ◌++◌, Bytes, arith, ltb, leb, length, length-append, append_assoc, append-nil, set, done,
}
use mathlib.Core.Path.{subst}
use lielas.Handler.Blocks.{
  Kind, con, non, ack, rst, Pdu, Block, CoapBuf, Client, Coption, SendAnswer, content, check_token,
  append_data, end_data, take_data, ask_next, finish_message, take_content, place_content,
  message_handler, receive, sent_ack,
}

set-middle :
    (xs : Bytes) (y : ℕ) (ys : Bytes) (v : ℕ) → set (xs ++ y ∷ ys) (length xs) v ≡ xs ++ v ∷ ys
set-middle [] y ys v = refl
set-middle (x ∷ xs) y ys v = ap (λ l. x ∷ l) (set-middle xs y ys v)

-- The bytes behind `before` are overwritten, and those of `rest` that are left stay.
append_data-all :
    (size : ℕ) (cs before rest : Bytes)
    → length (before ++ rest) ≡ size
    → length before + length cs < size
    → (o : ℕ) × (left : Bytes) × (append_data size cs (length before) (before ++ rest)
        ≡ done (length (before ++ cs), (before ++ cs) ++ o ∷ left))
      × (length ((before ++ cs) ++ o ∷ left) ≡ size)
unfolding append_data
append_data-all size [] before [] full short =
    absurd (omega (arith, full, short, length-append before []))
append_data-all size [] before (o ∷ left) full short =
    let same = append-nil before in (o, left, rw same refl, rw same full)
append_data-all size (c ∷ cs) before [] full short =
    absurd (omega (arith, full, short, length-append before []))
append_data-all size (c ∷ cs) before (o ∷ rest) full short =
    let go : leb size (length before + 1) ≡ false = ground (arith, short) in
    let there : ltb (length before) (length (before ++ o ∷ rest)) ≡ true =
      ground (arith, length-append before (o ∷ rest)) in
    let written = set-middle before o rest c in
    let split = append_assoc before (c ∷ []) rest in
    let len : length before + 1 ≡ length (before ++ c ∷ []) =
      omega (arith, length-append before (c ∷ [])) in
    let full' : length ((before ++ c ∷ []) ++ rest) ≡ size = omega (
      arith,
      full,
      length-append (before ++ c ∷ []) rest,
      length-append before (c ∷ []),
      length-append before (o ∷ rest),
    ) in
    let (p, left, ran, total) =
      append_data-all size cs (before ++ c ∷ []) rest full'
        (omega (arith, short, length-append before (c ∷ []))) in
    let more = append_assoc before (c ∷ []) cs in
    let first : append_data size (c ∷ cs) (length before) (before ++ o ∷ rest)
        ≡ append_data size cs (length (before ++ c ∷ [])) ((before ++ c ∷ []) ++ rest) =
      rw (go, there, written, len, split) refl in
    (p, left, first ∙ ran ∙ rw more refl, rw (sym more) total)

-- The buffer holds these bytes up to its length.
pub record Holds (cb : CoapBuf) (bytes : Bytes) : Type 0 where
  pub rest : Bytes
  pub buf : cb.buf ≡ some (bytes ++ rest)
  pub len : cb.len ≡ length bytes
  pub size : length (bytes ++ rest) ≡ cb.buf_size

-- They are followed by a zero.
pub record IsEnded (cb : CoapBuf) (bytes : Bytes) : Type 0 where
  pub rest : Bytes
  pub buf : cb.buf ≡ some (bytes ++ 0 ∷ rest)
  pub len : cb.len ≡ length bytes

take_data-Holds :
    (cs before : Bytes) (cb : CoapBuf)
    → Holds cb before
    → length before + length cs < cb.buf_size
    → (cb' : CoapBuf) × (take_data (some cs) cb ≡ done cb')
      × Holds cb' (before ++ cs)
      × IsEnded cb' (before ++ cs)
      × (cb'.status ≡ cb.status)
      × (cb'.buf_size ≡ cb.buf_size)
unfolding take_data end_data
take_data-Holds cs before cb h short =
    let (o, left, ran, total) = append_data-all cb.buf_size cs before h.rest h.size short in
    let all = before ++ cs in
    let room : ltb (length all) (length (all ++ o ∷ left)) ≡ true =
      ground (arith, length-append all (o ∷ left)) in
    let ended = set-middle all o left 0 in
    let same : length (all ++ 0 ∷ left) ≡ cb.buf_size =
      omega (arith, total, length-append all (0 ∷ left), length-append all (o ∷ left)) in
    (
      record cb { buf = some (all ++ 0 ∷ left); len = length all },
      rw (h.buf, h.len, ran, room, ended, take_data, end_data) refl,
      record { rest = 0 ∷ left; buf = refl; len = refl; size = same },
      record { rest = left; buf = refl; len = refl },
      refl,
      refl,
    )

abbrev is_rst : Kind → Bool
is_rst con = false
is_rst non = false
is_rst ack = false
is_rst rst = true

-- A message of an answer that carries these bytes: it has the token of the request and the code
-- 2.05, and is no reset.
pub record Carries (options : List Coption) (received : Pdu) (cs : Bytes) : Type 0 where
  pub ours : check_token received options ≡ true
  pub code : received.code ≡ content
  pub kind : is_rst received.kind ≡ false
  pub body : received.body ≡ some cs

-- The messages of an answer: each but the last has a block with more to come, and the message that
-- asks for the next one can be made.
pub data AnswerOf (options : List Coption) : List (SendAnswer × Pdu) → Bytes → Type 0 where
  single :
      {a : SendAnswer} {received : Pdu} {cs : Bytes}
      → Carries options received cs
      → received.block ≡ none
      → received.subscription ≡ false
      → AnswerOf options ((a, received) ∷ []) cs
  last :
      {a : SendAnswer} {received : Pdu} {cs : Bytes} (b : Block)
      → Carries options received cs
      → received.block ≡ some b
      → b.more ≡ false
      → received.subscription ≡ false
      → AnswerOf options ((a, received) ∷ []) cs
  part :
      {a : SendAnswer} {received : Pdu} {cs : Bytes} {ms : List (SendAnswer × Pdu)} {more : Bytes}
      (b : Block)
      → Carries options received cs
      → received.block ≡ some b
      → b.more ≡ true
      → a.allocated ≡ true
      → AnswerOf options ms more
      → AnswerOf options ((a, received) ∷ ms) (cs ++ more)

module _ (encode : ℕ → Bytes) where
  -- The handler goes on with the state in which the status is cleared and the message is
  -- acknowledged if that is asked for.
  message_handler-content :
      (k : Kind) (a : SendAnswer) (has_sent : Bool) (received : Pdu) (cs : Bytes) (s : Client)
      → received.kind ≡ k
      → is_rst k ≡ false
      → Carries s.optlist received cs
      → (s₀ : Client) × (message_handler encode a has_sent received s
          ≡ take_content encode a received s₀)
        × (s₀.mycoapbuf ≡ record s.mycoapbuf { status = 0 })
        × (s₀.optlist ≡ s.optlist)
  unfolding message_handler
  message_handler-content con a has_sent received cs s e h m = (
    record s { mycoapbuf = record s.mycoapbuf { status = 0 }; wire = s.wire ++ sent_ack ∷ [] },
    simp (m.ours, e, m.code),
    refl,
    refl,
  )
  message_handler-content non a has_sent received cs s e h m = (
    record s { mycoapbuf = record s.mycoapbuf { status = 0 } },
    simp (m.ours, e, m.code),
    refl,
    refl,
  )
  message_handler-content ack a has_sent received cs s e h m = (
    record s { mycoapbuf = record s.mycoapbuf { status = 0 } },
    simp (m.ours, e, m.code),
    refl,
    refl,
  )
  message_handler-content rst a has_sent received cs s e h m = absurd (cc)

  -- What a message with these bytes leaves in the buffer, before its block is looked at.
  message_handler-body :
      (a : SendAnswer) (has_sent : Bool) (received : Pdu) (cs before : Bytes) (s : Client)
      → Carries s.optlist received cs
      → Holds s.mycoapbuf before
      → length before + length cs < s.mycoapbuf.buf_size
      → (s₀ : Client) × (cb : CoapBuf) × (message_handler encode a has_sent received s
          ≡ done (place_content encode a received cb s₀))
        × Holds cb (before ++ cs)
        × IsEnded cb (before ++ cs)
        × (cb.status ≡ content)
        × (cb.buf_size ≡ s.mycoapbuf.buf_size)
        × (s₀.optlist ≡ s.optlist)
  unfolding take_content
  message_handler-body a has_sent received cs before s m h short =
      let (s₀, begun, buf₀, opts) =
        message_handler-content received.kind a has_sent received cs s refl m.kind m in
      let cleared : CoapBuf = record s.mycoapbuf { status = content } in
      let same : record s₀.mycoapbuf { status = content } ≡ cleared =
        ap {B = CoapBuf} (λ (cb : CoapBuf). record cb { status = content }) buf₀ in
      let held : Holds cleared before = record {
        rest = h.rest;
        buf = h.buf;
        len = h.len;
        size = h.size;
      } in
      let (cb, took, holds, ended, status, size) = take_data-Holds cs before cleared held short in
      let body : take_content encode a received s₀ ≡ done (place_content encode a received cb s₀) =
        rw (same, m.body, took) refl in
      (s₀, cb, begun ∙ body, holds, ended, status, size, opts)

  -- With more to come the buffer keeps what it has, and the status stays cleared.
  place_content-part :
      (a : SendAnswer) (received : Pdu) (b : Block) (cb : CoapBuf) (s : Client)
      → received.block ≡ some b
      → b.more ≡ true
      → a.allocated ≡ true
      → ((place_content encode a received cb s).mycoapbuf ≡ record cb { status = 0 })
        × ((place_content encode a received cb s).optlist ≡ s.optlist)
  unfolding place_content ask_next
  place_content-part a received b cb s e goes ok = elim (Bool-cases a.sendable) [
    | inl h ↦ (rw (e, goes, ok, h) refl, rw (e, goes, ok, h) refl)
    | inr h ↦ (rw (e, goes, ok, h) refl, rw (e, goes, ok, h) refl)
  ]

  receive-AnswerOf :
      (options : List Coption) (ms : List (SendAnswer × Pdu)) (total before : Bytes) (s : Client)
      → s.optlist ≡ options
      → AnswerOf options ms total
      → Holds s.mycoapbuf before
      → length before + length total < s.mycoapbuf.buf_size
      → (s' : Client) × (receive encode ms s ≡ done s')
        × IsEnded s'.mycoapbuf (before ++ total)
        × (s'.mycoapbuf.status ≡ content)
        × (s'.ready ≡ true)
  unfolding receive place_content finish_message
  receive-AnswerOf options _ total before s same (single {a} {received} m e final) h short =
      let (s₀, cb, ran, _, ended, status, _, _) =
        message_handler-body a true received total before s
          (subst (λ o. Carries o received total) (sym same) m) h short in
      (record s₀ { mycoapbuf = cb; ready = true }, rw (ran, e, final) refl, ended, status, refl)
  receive-AnswerOf options _ total before s same (last {a} {received} b m e end final) h short =
      let (s₀, cb, ran, _, ended, status, _, _) =
        message_handler-body a true received total before s
          (subst (λ o. Carries o received total) (sym same) m) h short in
      (
        record s₀ { mycoapbuf = cb; ready = true },
        rw (ran, e, end, final) refl,
        ended,
        status,
        refl,
      )
  receive-AnswerOf options _ _ before s same
        (part {a} {received} {cs} {ms} {more} b m e goes ok rest) h short =
      let (s₀, cb, ran, holds, _, _, size, opts) =
        message_handler-body a true received cs before s
          (subst (λ o. Carries o received cs) (sym same) m) h
          (omega (arith, short, length-append cs more)) in
      let s₁ = place_content encode a received cb s₀ in
      let (kept, opts₁) = place_content-part a received b cb s₀ e goes ok in
      let held : Holds (record cb { status = 0 }) (before ++ cs) = record {
        rest = holds.rest;
        buf = holds.buf;
        len = holds.len;
        size = holds.size;
      } in
      let size₁ : s₁.mycoapbuf.buf_size ≡ s.mycoapbuf.buf_size =
        ap (λ (x : CoapBuf). x.buf_size) kept ∙ size in
      let (s', ran', ended, status, done_) =
        receive-AnswerOf options ms more (before ++ cs) s₁ (opts₁ ∙ opts ∙ same) rest
          (subst (λ x. Holds x (before ++ cs)) (sym kept) held)
          (omega (arith, short, size₁, length-append cs more, length-append before cs)) in
      let split = append_assoc before cs more in
      (s', rw ran ran', subst (λ l. IsEnded s'.mycoapbuf l) split ended, status, done_)

  -- An answer in any number of blocks, whatever their numbers, is collected in the buffer, the
  -- bytes of its messages one behind another with a zero behind them; the status is then 2.05 and
  -- the request is done. Each message has the token of the request and the code 2.05, each but the
  -- last has more to come and the request for the next block can be made, and the bytes are fewer
  -- than the room that the buffer has left.
  pub receive-collected :
      (ms : List (SendAnswer × Pdu)) (total before : Bytes) (s : Client)
      → AnswerOf s.optlist ms total
      → Holds s.mycoapbuf before
      → length before + length total < s.mycoapbuf.buf_size
      → (s' : Client) × (receive encode ms s ≡ done s')
        × IsEnded s'.mycoapbuf (before ++ total)
        × (s'.mycoapbuf.status ≡ content)
        × (s'.ready ≡ true)
  receive-collected ms total before s answer h short =
      receive-AnswerOf s.optlist ms total before s refl answer h short
