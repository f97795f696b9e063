-- ===== src/Tests/Handler.antt =====
-- The run mode, the cycle mode and the records at concrete times, answers and bytes.
use lielas.Base.{
  ℕ, ◌+◌, ◌≡◌, ◌≢◌, ◌<◌, refl, ◌⊎◌, inr, true, false, none, [], ◌∷◌, Bytes, codes, arith, done,
  fault, ◌==◌, if◌then◌else◌, sub_ℕ,
}
use lielas.Tm.{Tm}
use lielas.Rtc.Clock.{testdt}
use lielas.Lwp.Format.{compdt_to_tm}
use lielas.Handler.Runmode.{
  Calendar, Mode, runmode_normal, runmode_register, set_runmode, runmode_handler,
}
use lielas.Handler.Runmode.Lasts.{registration_lasts, set, tick, here, next, IsSound, Reach-IsSound}
use lielas.Handler.Coap.{Reply, status_content, std_tries}
use lielas.Handler.Cycle.{set_cycle_mode, cycle_mode_on, cycle_tries}
use lielas.Handler.Cycle.Tries.{counted, FirstContent, set_cycle_mode-tries}
use lielas.Handler.Records.{test_datetime, parse_records}
use lielas.Handler.Records.Parsed.{
  Entry, entries_text, all_packets, bytes_of, values_of, parse_records-packets,
  parse_records_overflow,
}

-- A broken-down time that is the count of seconds itself.
abbrev seconds : Calendar
seconds = record {
  Broken = ℕ;
  gmtime = λ t. t;
  later = λ n t. t + n;
  difftime = λ s t. sub_ℕ s t;
  difftime-later = λ s t n. refl;
}

abbrev normal : Mode seconds
normal = record { runmode = runmode_normal; end_timer = none }

registration_lasts_example :
    (runmode_handler seconds 1059 (set_runmode seconds true 1000 runmode_register normal).1).runmode
    ≡ runmode_register
registration_lasts_example = registration_lasts seconds 1000 1059 normal (λ e. ground arith)

normal-IsSound : IsSound seconds normal
normal-IsSound = record { known = omega arith; timed = λ e. ground arith }

Reach-IsSound_example :
    IsSound seconds
      (runmode_handler seconds 1060 (set_runmode seconds true 1000 runmode_register normal).1)
Reach-IsSound_example =
    Reach-IsSound seconds
      (next (next here (set true 1000 runmode_register normal))
        (tick 1060 (set_runmode seconds true 1000 runmode_register normal).1))
      normal-IsSound

-- The third answer has status 2.05.
abbrev third : ℕ → Reply
third n = record { status = if n == 2 then status_content else 0; len = 0; buf = [] }

set_cycle_mode-tries_example :
    let (failed, s) =
      set_cycle_mode
        (counted third)
        true
        []
        (codes "fd00::1")
        cycle_mode_on
        (record { world = 0; retries = 3 }) in
    ((true ≡ false) × (failed ≡ true) × (s.world ≡ 0) × (s.retries ≡ 3))
    ⊎ ((true ≡ true)
        × (((failed ≡ false)
              × ((j : ℕ) × FirstContent third 0 cycle_tries j × (s.world ≡ 0 + j + 1)))
            ⊎ ((failed ≡ true)
                × ((i : ℕ) → i < cycle_tries → (third (0 + i)).status ≢ status_content)
                × (s.world ≡ 0 + cycle_tries)))
        × (s.retries ≡ std_tries))
set_cycle_mode-tries_example =
    set_cycle_mode-tries third true [] (codes "fd00::1") cycle_mode_on 0 3 (inr refl)

-- 13 June 2013, 12:30:15, with two values
abbrev june_entry : Entry
june_entry = record { b0 = 141; b1 = 53; b2 = 230; b3 = 61; values = (215, 0) ∷ (16, 39) ∷ [] }

-- `mktime` of a time whose members are in range, and one digit printed.
abbrev same_time : Tm → Tm
same_time dt = dt

abbrev one_digit : ℕ → ℕ → Bytes
one_digit cnr raw = (b'0' + cnr) ∷ []

june-test_datetime : test_datetime (compdt_to_tm 141 53 230 61) ≡ true
unfolding test_datetime testdt compdt_to_tm
june-test_datetime = refl

parse_records-packets_example :
    parse_records same_time one_digit 3 2 16 0 (entries_text (june_entry ∷ june_entry ∷ []) [])
    ≡ done (all_packets same_time one_digit (june_entry ∷ june_entry ∷ []), false)
unfolding bytes_of values_of
parse_records-packets_example =
    parse_records-packets same_time one_digit 3 2 16 0 (june_entry ∷ june_entry ∷ []) []
      ((refl, june-test_datetime), ((refl, june-test_datetime), tt)) (omega arith) refl
      (omega arith)

parse_records_overflow_example :
    parse_records same_time one_digit 3 2 8 5000 (141 ∷ 53 ∷ 230 ∷ 61 ∷ 215 ∷ 0 ∷ 16 ∷ 39 ∷ [])
    ≡ fault
parse_records_overflow_example =
    parse_records_overflow same_time one_digit 2 2 8 5000 141 53 230 61 215 0 (16 ∷ 39 ∷ [])
      (omega arith) (omega arith) (omega arith) june-test_datetime
