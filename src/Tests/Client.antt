-- ===== src/Tests/Client.antt =====
-- An answer in two blocks, and a call whose address is not found.
use lielas.Base.{
  ℕ, ◌≡◌, refl, Bool, true, false, some, List, [], ◌∷◌, ◌++◌, Bytes, codes, replicate, arith,
  str_eq, done,
}
use lielas.Handler.Blocks.{
  con, uri_path, Block, Pdu, Coption, CoapBuf, Client, SendAnswer, content, check_token, own_token,
}
use lielas.Handler.Blocks.Collected.{AnswerOf, last, part, Carries, IsEnded}
use lielas.Handler.Exchange.{
  Codec, Start, message, returned, add_uri, insert_all, parts_of, handle_send_cmd,
}
use lielas.Handler.Exchange.Answered.{events_of, handle_send_cmd-answer}

-- A path of one part, without a query.
abbrev codec : Codec
codec = record {
  split_uri = λ s. record { host = codes "fd00::1"; path = s; query = [] };
  split_path = λ s. s ∷ [];
  split_query = λ s. [];
  insert = λ o os. os ++ o ∷ [];
  decode_segment = λ s. some s;
  encode = λ n. n ∷ [];
}

abbrev path : Bytes → Coption
path v = record { key = uri_path; value = v }

abbrev block : ℕ → Bool → Block
block num more = record { key = 23; num = num; more = more; szx = 2 }

abbrev block_pdu : ℕ → Bool → Bytes → Pdu
block_pdu num more body = record {
  kind = con;
  code = content;
  token = [];
  block = some (block num more);
  body = some body;
  subscription = false;
}

abbrev good : SendAnswer
good = record { allocated = true; sendable = true; now = 0 }

abbrev empty_buf : CoapBuf
empty_buf = record { buf = some (replicate 10 1); status = 0; len = 0; buf_size = 10 }

abbrev client : List Coption → Client
client options = record {
  mycoapbuf = empty_buf;
  method = 1;
  optlist = options;
  payload = [];
  ready = false;
  max_wait = 0;
  wire = [];
}

abbrev two_blocks : List (SendAnswer × Pdu)
two_blocks = (good, block_pdu 0 true (codes "60")) ∷ (good, block_pdu 1 false (codes "0")) ∷ []

block_pdu-Carries :
    (num : ℕ) (more : Bool) (body : Bytes)
    → Carries (path (codes "/x") ∷ []) (block_pdu num more body) body
unfolding check_token own_token str_eq
block_pdu-Carries num more body = record { ours = refl; code = refl; kind = refl; body = refl }

two_blocks-AnswerOf : AnswerOf (path (codes "/x") ∷ []) two_blocks (codes "600")
two_blocks-AnswerOf =
    part (block 0 true) (block_pdu-Carries 0 true (codes "60")) refl refl refl
      (last (block 1 false) (block_pdu-Carries 1 false (codes "0")) refl refl refl)

abbrev start : Bool → Start
start resolved = record {
  resolved = resolved;
  has_context = true;
  host_differs = false;
  confirmable = true;
  sent_ok = true;
}

handle_send_cmd-answer_example :
    (s' : Client) × (handle_send_cmd codec
        (start true)
        (events_of two_blocks (message true good true (block_pdu 1 false [])))
        (codes "/x")
        empty_buf
        1
        []
        (client [])
      ≡ done (returned, s'))
    × IsEnded s'.mycoapbuf (codes "600")
    × (s'.mycoapbuf.status ≡ content)
    × (s'.optlist ≡ [])
unfolding add_uri insert_all parts_of
handle_send_cmd-answer_example =
    handle_send_cmd-answer codec (start true) two_blocks good (block_pdu 1 false []) (codes "/x")
      (codes "600") (replicate 10 1) empty_buf 1 [] (client []) refl refl refl refl
      two_blocks-AnswerOf refl refl (omega arith)
