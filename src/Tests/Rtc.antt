-- ===== src/Tests/Rtc.antt =====
-- A clock chip that keeps its registers and moves its register pointer on after a read.
use lielas.Base.{
  ℕ, ◌+◌, ◌≡◌, refl, ◌==◌, if◌then◌else◌, some, true, false, [], ◌∷◌, ◌++◌, Bool, ◌⊎◌, arith,
  replicate, pos,
}
use lielas.Tm.{Tm}
use lielas.Rtc.I2c.{Tools, i2c_writeb, i2c_read, read_loop, write_loop, select, i2c_init}
use lielas.Rtc.Chip.{
  encode, decode, bcd2byte, byte2bcd, Rtc4162, read_register, write_register, rtc4162_init,
  rtc4162_get, rtc4162_set,
}
use lielas.Rtc.Clock.{
  testdt, rtc_state_ok, rtc_state_uninitialized, set_date, set_time, Host, Rtc, read_valid,
  init_from_ntp, rtc_init, rtc_set_dt,
}
use lielas.Rtc.Bcd.{decode-encode}
use lielas.Rtc.Transfer.{RegisterFile}
use lielas.Rtc.Trip.{rtc4162_get-set}
use lielas.Rtc.State.{rtc_set_dt-oscfailed, rtc_init-outcome, asked_once, set_again}

-- The registers and the pointer.
abbrev Chip : Type 0
Chip = (ℕ → ℕ) × ℕ

abbrev chip_tools : Tools
chip_tools = record {
  Wire = Chip;
  i2cset_select = λ nr adr reg w. some (w.0, reg);
  i2cset_write = λ nr adr reg v w. some ((λ k. if k == reg then v else w.0 k), w.1);
  i2cget = λ nr adr w. some (some (w.0 w.1), (w.0, w.1 + 1));
}

chip_file : RegisterFile chip_tools
chip_file = record {
  view = λ w. w.0;
  at_reg = λ w. w.1;
  select_ok = λ nr adr reg w. ((w.0, reg), refl, refl, refl);
  write_ok = λ nr adr reg v w. (((λ k. if k == reg then v else w.0 k), w.1), refl, λ k. refl);
  read_ok = λ nr adr w. ((w.0, w.1 + 1), refl, refl, refl);
}

-- 13 June 2013, 12:30:15
abbrev june_time : Tm
june_time = record {
  tm_sec = pos 15;
  tm_min = pos 30;
  tm_hour = pos 12;
  tm_mday = pos 13;
  tm_mon = pos 5;
  tm_year = pos 113;
  tm_wday = pos 0;
  tm_yday = pos 0;
  tm_isdst = pos 0;
}

abbrev driver : Bool → Rtc4162 Chip
driver oscfailed = record {
  i2c = record { i2c_adr = 104; i2c_nr = 1; wire = ((λ k. 0), 0) };
  oscfailed = oscfailed;
}

abbrev clock : Bool → Rtc Chip
clock oscfailed = record {
  rtc_state = rtc_state_uninitialized;
  driver = driver oscfailed;
  ran = [];
  held = 0;
}

-- Every command fails; the system clock is synchronised.
abbrev failing_host : Host
failing_host = record {
  mutex_fails = false;
  ntp_fails = false;
  time_error = false;
  now = june_time;
  system = λ c. true;
}

june_time-testdt : testdt june_time ≡ false
unfolding testdt
june_time-testdt = refl

decode-encode_example : decode (encode june_time) ≡ june_time
decode-encode_example = decode-encode june_time june_time-testdt

rtc4162_get-set_example :
    ((rtc4162_set chip_tools june_time (driver false)).0 ≡ false)
    × ((rtc4162_get chip_tools
          (replicate 8 0)
          (rtc4162_set chip_tools june_time (driver false)).1).0
        ≡ some june_time)
rtc4162_get-set_example =
    rtc4162_get-set chip_tools chip_file june_time (replicate 8 0) (driver false) (refl, refl) refl
      june_time-testdt (omega arith)

rtc_set_dt-oscfailed_example :
    (rtc_set_dt chip_tools failing_host (replicate 8 0) june_time (clock true)).0 ≡ true
rtc_set_dt-oscfailed_example =
    rtc_set_dt-oscfailed chip_tools failing_host (replicate 8 0) june_time (clock true) refl

-- The registers are zero, which is no valid time, so the time is taken from the system clock.
zero_chip-rtc_init : (rtc_init chip_tools failing_host 0 (replicate 20 0) (clock false)).0 ≡ false
unfolding rtc_init init_from_ntp rtc4162_init rtc4162_set rtc4162_get read_valid read_register
    write_register i2c_writeb i2c_read read_loop write_loop select i2c_init testdt encode decode
    bcd2byte byte2bcd
zero_chip-rtc_init = refl

rtc_init-outcome_example :
    let (failed, r) = rtc_init chip_tools failing_host 0 (replicate 20 0) (clock false) in
    ((dt : Tm) × ((rtc4162_get chip_tools
          (replicate 20 0)
          (rtc4162_init chip_tools 0 (driver false)).1).0
        ≡ some dt)
      × (testdt dt ≡ false)
      × (r.driver ≡ asked_once chip_tools failing_host (replicate 20 0) 0 (clock false))
      × (r.ran ≡ [] ++ (set_date dt ∷ set_time dt ∷ []))
      × (r.rtc_state ≡ rtc_state_ok))
    ⊎ ((false ≡ false)
        × ((dt : Tm) × ((rtc4162_get chip_tools
                (replicate 20 0)
                (set_again chip_tools failing_host (replicate 20 0) 0 (clock false))).0
              ≡ some dt)
            × (testdt dt ≡ false))
        × (r.driver
            ≡ (rtc4162_get chip_tools
                (replicate 20 0)
                (set_again chip_tools failing_host (replicate 20 0) 0 (clock false))).1)
        × (r.ran ≡ [])
        × (r.rtc_state ≡ rtc_state_uninitialized))
rtc_init-outcome_example =
    rtc_init-outcome chip_tools failing_host (replicate 20 0) 0 (clock false) zero_chip-rtc_init
