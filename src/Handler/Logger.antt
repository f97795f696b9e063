-- ===== src/Handler/Logger.antt =====
-- `setLoggerMint` of devicehandler.c: the interval of a device's logger is brought to that of the
-- database.
pub mod Interval
use lielas.Base.{
  ℕ, Bool, true, false, not, Bytes, [], ◌∷◌, ◌==◌, if◌then◌else◌, str_eq, codes, texts, take, Run,
  done, fault, ◌>>=◌,
}
use lielas.Lwp.Wkc.{Resource}
use lielas.Lwp.Attr.{get_attr_value}
use lielas.Handler.Coap.{Method, get, put, Request, Reply, status_content, Net, send_cmd}

-- `CMDBUFFER_SIZE`
abbrev pub cmd_size : ℕ
cmd_size = 500

-- The string in a buffer: the bytes before its first zero.
unfoldable pub string_of : Bytes → Bytes
string_of [] = []
string_of (c ∷ s) = if c == 0 then [] else c ∷ string_of s

abbrev pub logger_uri : Bytes → Bytes
logger_uri address = take 499 (texts (codes "coap://[" ∷ address ∷ codes "]:5683/logger" ∷ []))

abbrev pub logger_put : Bytes → Bytes → Request
logger_put address post = record { uri = logger_uri address; method = put; post = take 499 post }

abbrev pub logger_get : Bytes → Request
logger_get address = record { uri = logger_uri address; method = get; post = [] }

module _ {W : Type 0} (transmit : Request → Reply → W → Reply × W) where
  -- `allocated` is false where `coap_create_buf` fails. `buf` and `recv` are the local buffers
  -- before anything was written into them, `mint` is the interval of the module. True where the C
  -- function returns -1.
  unfoldable pub set_logger_mint :
      Bool → (buf recv address mint : Bytes) → Resource → Net W → Run (Bool × Net W)
  set_logger_mint allocated buf recv address mint logger s₀ =
      let cb : Reply = record { status = 0; len = 0; buf = buf } in
      let (cb₁, s₁) = send_cmd transmit (logger_get address) cb s₀ in
      let (cb₂, s₂) = send_cmd transmit (logger_put address (codes "state=1")) cb₁ s₁ in
      let interval = texts (codes "interval=" ∷ mint ∷ []) in
      let (cb₃, s₃) = send_cmd transmit (logger_put address interval) cb₂ s₂ in
      let (_, kept) = send_cmd transmit (logger_put address (codes "state=1")) cb₂ s₂ in
      let (_, changed) = send_cmd transmit (logger_put address (codes "state=1")) cb₃ s₃ in
      if not allocated
      then done (true, s₀)
      else if not (cb₁.status == status_content)
      then done (true, s₁)
      else (get_attr_value cb₁.buf logger (codes "interval") recv cmd_size >>= λ (failed, recv').
          done (
            if failed
            then (true, s₁)
            else if str_eq mint (string_of recv')
            then (false, kept)
            else if not (cb₃.status == status_content)
            then (true, s₃)
            else (false, changed)))
