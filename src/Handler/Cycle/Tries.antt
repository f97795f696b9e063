-- ===== src/Handler/Cycle/Tries.antt =====
-- What the tries of `setCycleMode` come to, for any sequence of answers.
use lielas.Base.{
  ℕ, zero, suc, ◌+◌, ◌<◌, ◌≡◌, refl, ◌≢◌, Bool, true, false, arith, Bytes, ◌==◌, ◌⊎◌, inl, inr,
  Bool-cases, ==_iff, set,
}
use lielas.Handler.Coap.{
  Request, Reply, std_tries, status_content, set_retries, send_rounds, send_cmd,
}
use lielas.Handler.Cycle.{
  cycle_mode_off, cycle_mode_on, cycle_request, cycle_tries, cycle_rounds, set_cycle_mode,
}

-- A network that counts the transmissions, and answers the `n`-th with `answers n`.
module _ (answers : ℕ → Reply) where
  abbrev pub counted : Request → Reply → ℕ → Reply × ℕ
  counted r cb n = (answers n, n + 1)

  -- The first answer of status 2.05 is number `j` from `n` on.
  pub record FirstContent (n tries j : ℕ) : Type 0 where
    pub within : j < tries
    pub content : (answers (n + j)).status ≡ status_content
    pub before : (i : ℕ) → i < j → (answers (n + i)).status ≢ status_content

  Outcome : ℕ → ℕ → Bool → ℕ → Type 0
  Outcome n tries failed n' =
      ((failed ≡ false) × ((j : ℕ) × FirstContent n tries j × (n' ≡ n + j + 1)))
      ⊎ ((failed ≡ true)
          × ((i : ℕ) → i < tries → (answers (n + i)).status ≢ status_content)
          × (n' ≡ n + tries))

  send_cmd-counted :
      (n : ℕ) (r : Request) (cb : Reply)
      → send_cmd counted r cb (record { world = n; retries = 1 })
        ≡ (answers n, record { world = n + 1; retries = 1 })
  unfolding send_cmd send_rounds
  send_cmd-counted n r cb = ground arith

  FirstContent-shift :
      (n tries j : ℕ)
      → (answers n).status ≢ status_content
      → FirstContent (n + 1) tries j
      → FirstContent n (suc tries) (suc j)
  FirstContent-shift n tries j miss f = record {
    within = omega (arith, f.within);
    content = rw (shift n j) f.content;
    before = not_before;
  }
    where
      shift : (n j : ℕ) → n + suc j ≡ n + 1 + j
      shift n j = omega arith

      not_before : (i : ℕ) → i < suc j → (answers (n + i)).status ≢ status_content
      not_before zero h = let z : n + 0 ≡ n = omega arith in rw z miss
      not_before (suc i) h = rw (shift n i) (f.before i (omega arith))

  never-shift :
      (n tries : ℕ)
      → (answers n).status ≢ status_content
      → ((i : ℕ) → i < tries → (answers (n + 1 + i)).status ≢ status_content)
      → (i : ℕ) → i < suc tries
      → (answers (n + i)).status ≢ status_content
  never-shift n tries miss h zero lt = let z : n + 0 ≡ n = omega arith in rw z miss
  never-shift n tries miss h (suc i) lt =
      let z : n + suc i ≡ n + 1 + i = omega arith in rw z (h i (omega arith))

  cycle_rounds-Outcome :
      (tries n : ℕ) (r : Request) (cb : Reply)
      → let (failed, s) = cycle_rounds counted tries r cb (record { world = n; retries = 1 }) in
        Outcome n tries failed s.world × (s.retries ≡ 1)
  unfolding cycle_rounds Outcome
  cycle_rounds-Outcome zero n r cb = (inr (refl, (λ i h. absurd (omega arith)), omega arith), refl)
  cycle_rounds-Outcome (suc tries) n r cb =
      let cleared = record (answers n) { buf = set (answers n).buf 0 0 } in
      let (later, kept) = cycle_rounds-Outcome tries (n + 1) r cleared in
      let start : n + 0 ≡ n = omega arith in
      rw (send_cmd-counted n r cb, cycle_rounds)
        (elim (Bool-cases ((answers n).status == status_content)) [
          | inl hit ↦ rw hit (
            inl (
              refl,
              (
                0,
                record {
                  within = omega arith;
                  content = rw start ((==_iff _ status_content).0 hit);
                  before = λ i h. absurd (omega arith);
                },
                omega arith,
              ),
            ),
            refl,
          )
          | inr miss ↦ rw miss (shifted later (ground arith), kept)
        ])
    where
      shifted :
          {failed : Bool} {n' : ℕ}
          → Outcome (n + 1) tries failed n'
          → (answers n).status ≢ status_content
          → Outcome n (suc tries) failed n'
      shifted (inl (e, (j, f, w))) miss =
          inl (e, (suc j, FirstContent-shift n tries j miss f, omega arith))
      shifted (inr (e, h, w)) miss = inr (e, never-shift n tries miss h, omega arith)

  -- For a known mode and any sequence of answers, where the buffer for the answer can be allocated,
  -- `setCycleMode` makes 30 tries at most; it returns 0 at the first answer of status 2.05, which
  -- is among them, and -1 if there is none; the count of retries is then the standard one. Where it
  -- cannot be allocated, -1 is returned, no try is made and the count stays.
  pub set_cycle_mode-tries :
      (allocated : Bool) (buf address : Bytes) (mode n retries : ℕ)
      → (mode ≡ cycle_mode_off) ⊎ (mode ≡ cycle_mode_on)
      → let (failed, s) =
          set_cycle_mode counted allocated buf address mode
            (record { world = n; retries = retries }) in
        ((allocated ≡ false) × (failed ≡ true) × (s.world ≡ n) × (s.retries ≡ retries))
        ⊎ ((allocated ≡ true)
            × (((failed ≡ false) × ((j : ℕ) × FirstContent n cycle_tries j × (s.world ≡ n + j + 1)))
                ⊎ ((failed ≡ true)
                    × ((i : ℕ) → i < cycle_tries → (answers (n + i)).status ≢ status_content)
                    × (s.world ≡ n + cycle_tries)))
            × (s.retries ≡ std_tries))
  unfolding set_cycle_mode set_retries Outcome
  set_cycle_mode-tries false buf address mode n retries known = inl (refl, refl, refl, refl)
  set_cycle_mode-tries true buf address mode n retries (inl e) = rw e (
      inr (
        refl,
        (cycle_rounds-Outcome cycle_tries n (cycle_request address cycle_mode_off)
            (record { status = 0; len = 0; buf = buf })).0,
        refl,
      ))
  set_cycle_mode-tries true buf address mode n retries (inr e) = rw e (
      inr (
        refl,
        (cycle_rounds-Outcome cycle_tries n (cycle_request address cycle_mode_on)
            (record { status = 0; len = 0; buf = buf })).0,
        refl,
      ))
