-- ===== src/Handler/Coap.antt =====
-- One command to a device: `coap_send_cmd` and `coap_set_retries` of liegw/src/coap/mycoap.c. A
-- single exchange, `handle_send_cmd`, is a parameter here; Handler/Exchange models it.
use lielas.Base.{ℕ, zero, suc, Bytes, ◌==◌, if◌then◌else◌}

pub data Method : Type 0 where
  get put : Method

pub record Request : Type 0 where
  pub uri : Bytes
  pub method : Method
  pub post : Bytes

-- The fields of `coap_buf` that a transmission sets; `buf` is the buffer up to its end.
pub record Reply : Type 0 where
  pub status : ℕ
  pub len : ℕ
  pub buf : Bytes

abbrev pub std_tries : ℕ
std_tries = 3

abbrev pub status_content : ℕ
status_content = 69

-- `W` is what the transmissions act on, and the count of retries is that of mycoap.c.
pub record Net (W : Type 0) : Type 0 where
  pub world : W
  pub retries : ℕ

unfoldable pub set_retries : {W : Type 0} → ℕ → Net W → Net W
set_retries n s = record s { retries = n }

module _ {W : Type 0} (transmit : Request → Reply → W → Reply × W) where
  -- The rounds of `coap_send_cmd`: it stops at the first status that is not zero.
  unfoldable pub send_rounds : ℕ → Request → Reply → W → Reply × W
  send_rounds zero r cb w = (cb, w)
  send_rounds (suc n) r cb w =
      let (cb', w') = transmit r cb w in
      let again = send_rounds n r cb' w' in if cb'.status == 0 then again else (cb', w')

  unfoldable pub send_cmd : Request → Reply → Net W → Reply × Net W
  send_cmd r cb s =
      let (cb', w) = send_rounds s.retries r cb s.world in (cb', record s { world = w })
