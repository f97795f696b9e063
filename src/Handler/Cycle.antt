-- ===== src/Handler/Cycle.antt =====
-- `setCycleMode` of devicehandler.c: a device is asked up to 30 times to switch its power cycle.
pub mod Tries
use lielas.Base.{
  ℕ, zero, suc, Bool, true, false, not, ◌&&◌, ◌||◌, Bytes, ◌++◌, [], ◌∷◌, ◌==◌, if◌then◌else◌,
  codes, set, ◌+◌,
}
use lielas.Handler.Coap.{
  Method, put, Request, Reply, std_tries, status_content, Net, set_retries, send_cmd,
}

abbrev pub cycle_mode_off : ℕ
cycle_mode_off = 0

abbrev pub cycle_mode_on : ℕ
cycle_mode_on = 1

abbrev pub cycle_tries : ℕ
cycle_tries = 30

-- The mode is 0 or 1, so its decimal text is one digit.
unfoldable pub cycle_request : Bytes → ℕ → Request
cycle_request address mode = record {
  uri = codes "coap://[" ++ address ++ codes "]:5683/network";
  method = put;
  post = codes "cycling_mode=" ++ (b'0' + mode) ∷ [];
}

module _ {W : Type 0} (transmit : Request → Reply → W → Reply × W) where
  -- The Boolean is true where the C function returns -1. After a failed try the buffer is emptied.
  unfoldable pub cycle_rounds : ℕ → Request → Reply → Net W → Bool × Net W
  cycle_rounds zero r cb s = (true, s)
  cycle_rounds (suc n) r cb s =
      let (cb', s') = send_cmd transmit r cb s in
      let again = cycle_rounds n r (record cb' { buf = set cb'.buf 0 0 }) s' in
      if cb'.status == status_content then (false, s') else again

  -- `allocated` is false where `coap_create_buf` fails; `buf` is the local buffer of 500 bytes.
  unfoldable pub set_cycle_mode : (allocated : Bool) → Bytes → Bytes → ℕ → Net W → Bool × Net W
  set_cycle_mode allocated buf address mode s =
      if not allocated
      then (true, s)
      else if not (mode == cycle_mode_on) && not (mode == cycle_mode_off)
      then (true, s)
      else let cb : Reply = record { status = 0; len = 0; buf = buf } in
        let (failed, s') =
          cycle_rounds cycle_tries (cycle_request address mode) cb (set_retries 1 s) in
        (failed, set_retries std_tries s')
