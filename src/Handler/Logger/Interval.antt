-- ===== src/Handler/Logger/Interval.antt =====
-- The requests that `setLoggerMint` makes.
use lielas.Base.{
  ℕ, suc, ◌+◌, ◌<◌, ◌≡◌, refl, inl, inr, true, false, Bytes, List, [], ◌∷◌, ◌++◌, if◌then◌else◌,
  str_eq, codes, texts, All, length, drop, done, arith, append_assoc, Bool-cases,
}
use lielas.Lwp.Wkc.{Resource}
use lielas.Lwp.Attr.{is_sep}
use lielas.Lwp.Attr.Values.{Placed, IsPlain, join, get_attr_value-value}
use lielas.Handler.Coap.{Request, Reply, status_content, send_rounds, send_cmd}
use lielas.Handler.Logger.{cmd_size, string_of, logger_get, logger_put, set_logger_mint}

pub string_of-value : (v rest : Bytes) → IsPlain v → string_of (v ++ 0 ∷ rest) ≡ v
unfolding string_of
string_of-value [] rest plain = refl
string_of-value (c ∷ v) rest plain = ground (arith, plain.0, string_of-value v rest plain.1)

-- A network that gives every request the same answer and keeps the requests.
module _ (answer : Reply) where
  abbrev pub recorded : Request → Reply → List Request → Reply × List Request
  recorded r cb w = (answer, w ++ r ∷ [])

  pub send_cmd-recorded :
      (n : ℕ) (r : Request) (cb : Reply) (w : List Request)
      → answer.status ≡ status_content
      → send_cmd recorded r cb (record { world = w; retries = suc n })
        ≡ (answer, record { world = w ++ r ∷ []; retries = suc n })
  unfolding send_cmd send_rounds
  send_cmd-recorded n r cb w ok = ground (arith, ok)

  -- The requests for an interval that is to be `mint` and is `v`.
  abbrev pub logger_requests : (address mint v : Bytes) → List Request
  logger_requests address mint v =
      let interval = logger_put address (texts (codes "interval=" ∷ mint ∷ [])) in
      let state = logger_put address (codes "state=1") in
      if str_eq mint v
      then logger_get address ∷ state ∷ state ∷ []
      else logger_get address ∷ state ∷ interval ∷ state ∷ []

  -- On a device that answers every request with status 2.05 and its list of values, `setLoggerMint`
  -- returns 0 after asking for the values, setting the state and, only if the interval differs from
  -- that of the module, setting the interval, and setting the state again; at least one try is
  -- allowed, and the interval fits its buffer and the limit.
  pub set_logger_mint-requests :
      {logger : Resource} {before : List Bytes} (p : Placed logger (codes "interval") before)
      (n sep : ℕ) (buf recv address mint v rest : Bytes) (w : List Request)
      → answer.status ≡ status_content
      → answer.buf ≡ join before ++ (v ++ sep ∷ rest)
      → All IsPlain before
      → IsPlain v
      → is_sep sep ≡ true
      → length (join before) + length v < cmd_size
      → length v < length recv
      → set_logger_mint recorded true buf recv address mint logger
          (record { world = w; retries = suc n })
        ≡ done (false, record { world = w ++ logger_requests address mint v; retries = suc n })
  unfolding set_logger_mint
  set_logger_mint-requests {logger} {before} p n sep buf recv address mint v rest w ok text plain
        plain_v stop short fits =
      let found = get_attr_value-value p v rest recv sep cmd_size plain plain_v stop short fits in
      let read = string_of-value v (drop (suc (length v)) recv) plain_v in
      let get = logger_get address in
      let state = logger_put address (codes "state=1") in
      let interval = logger_put address (texts (codes "interval=" ∷ mint ∷ [])) in
      let cb : Reply = record { status = 0; len = 0; buf = buf } in
      let w₁ = w ++ get ∷ [] in
      let w₂ = w₁ ++ state ∷ [] in
      let asked = send_cmd-recorded n get cb w ok in
      let first = send_cmd-recorded n state answer w₁ ok in
      let set = send_cmd-recorded n interval answer w₂ ok in
      let kept = send_cmd-recorded n state answer w₂ ok in
      let changed = send_cmd-recorded n state answer (w₂ ++ interval ∷ []) ok in
      let split₁ = append_assoc w (get ∷ []) (state ∷ []) in
      let split₂ = append_assoc w (get ∷ state ∷ []) (state ∷ []) in
      let split₃ = append_assoc w (get ∷ state ∷ []) (interval ∷ []) in
      let split₄ = append_assoc w (get ∷ state ∷ interval ∷ []) (state ∷ []) in
      rw (asked, first, set, kept, changed, text, found, read, ok)
        (elim (Bool-cases (str_eq mint v)) [
          | inl same ↦ rw (same, split₁, split₂) refl
          | inr differs ↦ rw (differs, split₁, split₃, split₄) refl
        ])
