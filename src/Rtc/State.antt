-- ===== src/Rtc/State.antt =====
-- What the start-up and the setting of the clock leave behind: the state, the commands run and the
-- mutex.
use lielas.Base.{
  ℕ, ◌+◌, ◌≡◌, true, false, ◌||◌, some, Option-cases, [], ◌∷◌, ◌++◌, ◌⊎◌, inl, inr, Bytes, arith,
}
use lielas.Tm.{Tm}
use lielas.Rtc.I2c.{Tools}
use lielas.Rtc.Chip.{Rtc4162, rtc4162_init, rtc4162_get, rtc4162_set}
use lielas.Rtc.Clock.{
  testdt, rtc_state_ok, rtc_state_uninitialized, set_date, set_time, Host, Rtc, set_system_time,
  read_valid, init_from_ntp, rtc_init, rtc_set_dt,
}

module _ (t : Tools) (h : Host) (buf : Bytes) where
  -- `rtc_set_dt` either sets the state to running and gives the mutex back, or returns -1 with the
  -- state as it was and the mutex still held.
  pub rtc_set_dt-held :
      (dt : Tm) (r : Rtc t.Wire)
      → let (failed, r') = rtc_set_dt t h buf dt r in
        ((r'.held ≡ r.held) × (r'.rtc_state ≡ rtc_state_ok))
        ⊎ ((failed ≡ true) × (r'.held ≡ r.held + 1) × (r'.rtc_state ≡ r.rtc_state))
  unfolding rtc_set_dt set_system_time
  rtc_set_dt-held dt r = ground arith

  -- Once the driver has noted an oscillator failure, `rtc_set_dt` returns -1 whatever the chip
  -- does.
  pub rtc_set_dt-oscfailed :
      (dt : Tm) (r : Rtc t.Wire) → r.driver.oscfailed ≡ true → (rtc_set_dt t h buf dt r).0 ≡ true
  unfolding rtc_set_dt set_system_time rtc4162_set rtc4162_get
  rtc_set_dt-oscfailed dt r osc = ground arith

  -- A valid time is what the chip gave.
  read_valid-get :
      (d : Rtc4162 t.Wire) {dt : Tm}
      → (read_valid t buf d).0 ≡ some dt
      → ((rtc4162_get t buf d).0 ≡ some dt) × (testdt dt ≡ false)
  unfolding read_valid
  read_valid-get d got = (ground arith, ground arith)

  -- The driver after the chip was asked for the first time, and after it was then set from the
  -- system clock and started again.
  abbrev pub asked_once : ℕ → Rtc t.Wire → Rtc4162 t.Wire
  asked_once byte r = (rtc4162_get t buf (rtc4162_init t byte r.driver).1).1

  abbrev pub set_again : ℕ → Rtc t.Wire → Rtc4162 t.Wire
  set_again byte r = (rtc4162_init t byte (rtc4162_set t h.now (asked_once byte r)).1).1

  -- `rtc_init` returns 0 in two ways: the chip, once started, gave a valid time, for which both
  -- commands were run, and the state is running; or the system clock was synchronised, the chip,
  -- set to its time and started again, gave a valid time, no command was run, and the state is
  -- still uninitialised.
  pub rtc_init-outcome :
      (byte : ℕ) (r : Rtc t.Wire)
      → (rtc_init t h byte buf r).0 ≡ false
      → ((dt : Tm) × ((rtc4162_get t buf (rtc4162_init t byte r.driver).1).0 ≡ some dt)
          × (testdt dt ≡ false)
          × ((rtc_init t h byte buf r).1.driver ≡ asked_once byte r)
          × ((rtc_init t h byte buf r).1.ran ≡ r.ran ++ (set_date dt ∷ set_time dt ∷ []))
          × ((rtc_init t h byte buf r).1.rtc_state ≡ rtc_state_ok))
        ⊎ (((h.ntp_fails || h.time_error) ≡ false)
            × ((dt : Tm) × ((rtc4162_get t buf (set_again byte r)).0 ≡ some dt)
                × (testdt dt ≡ false))
            × ((rtc_init t h byte buf r).1.driver ≡ (rtc4162_get t buf (set_again byte r)).1)
            × ((rtc_init t h byte buf r).1.ran ≡ r.ran)
            × ((rtc_init t h byte buf r).1.rtc_state ≡ rtc_state_uninitialized))
  unfolding rtc_init init_from_ntp set_system_time read_valid
  rtc_init-outcome byte r zero_ret =
      let started = (rtc4162_init t byte r.driver).1 in
      elim (Option-cases (read_valid t buf started).0) [
        | inl invalid ↦ inr (
          ground arith,
          (elim (Option-cases (read_valid t buf (set_again byte r)).0) [
            | inl lost ↦ absurd (ground arith)
            | inr (dt, got) ↦
                let (gave, good) = read_valid-get (set_again byte r) got in (dt, gave, good)
          ]),
          ground arith,
          ground arith,
          ground arith,
        )
        | inr (dt, got) ↦
            let (gave, good) = read_valid-get started got in
            inl (dt, gave, good, ground arith, ground arith, ground arith)
      ]
