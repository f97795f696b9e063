-- ===== src/Rtc/Clock.antt =====
-- liegw/src/rtc/rtc.c: start-up of the clock, setting of the clock and of the system time.
use lielas.Base.{
  ℕ, ◌+◌, Bool, true, false, ◌||◌, Option, none, some, List, [], ◌∷◌, ◌++◌, Bytes, if◌then◌else◌,
  pos, ltb_ℤ, codes,
}
use lielas.Tm.{Tm}
use lielas.Rtc.I2c.{Tools}
use lielas.Rtc.Chip.{Rtc4162, rtc4162_init, rtc4162_get, rtc4162_set}

-- True where the C function returns -1. `devicehandler.c` has the same test with the opposite
-- result, `testDatetime`.
unfoldable pub testdt : Tm → Bool
testdt dt =
    if ltb_ℤ dt.tm_hour (pos 0) || ltb_ℤ (pos 23) dt.tm_hour
    then true
    else if ltb_ℤ dt.tm_min (pos 0) || ltb_ℤ (pos 59) dt.tm_min
    then true
    else if ltb_ℤ dt.tm_sec (pos 0) || ltb_ℤ (pos 59) dt.tm_sec
    then true
    else if ltb_ℤ dt.tm_year (pos 100) || ltb_ℤ (pos 200) dt.tm_year
    then true
    else if ltb_ℤ dt.tm_mon (pos 0) || ltb_ℤ (pos 11) dt.tm_mon
    then true
    else ltb_ℤ dt.tm_mday (pos 1) || ltb_ℤ (pos 31) dt.tm_mday

pub data RtcState : Type 0 where
  rtc_state_ok rtc_state_uninitialized rtc_state_not_synced : RtcState

-- A run of `date --set`, for the date or for the time of day of the broken-down time.
pub data SystemTime : Type 0 where
  set_date : Tm → SystemTime
  set_time : Tm → SystemTime

-- What the rest of the system answers: the initialisation of the mutex, `ntp_gettime` and `errno`
-- after it, the current time, and whether `system` reports a failure of each command.
pub record Host : Type 0 where
  pub mutex_fails : Bool
  pub ntp_fails : Bool
  pub time_error : Bool
  pub now : Tm
  pub system : SystemTime → Bool

-- `rtc_state`, the driver below, the commands run so far, and how often `rtcmutex` is held.
pub record Rtc (Wire : Type 0) : Type 0 where
  pub rtc_state : RtcState
  pub driver : Rtc4162 Wire
  pub ran : List SystemTime
  pub held : ℕ

-- The two commands, the second only if the first succeeds; true where one fails.
unfoldable pub set_system_time : {Wire : Type 0} → Host → Tm → Rtc Wire → Bool × Rtc Wire
set_system_time h dt r =
    if h.system (set_date dt)
    then (true, record r { ran = r.ran ++ (set_date dt ∷ []) })
    else (h.system (set_time dt), record r { ran = r.ran ++ (set_date dt ∷ set_time dt ∷ []) })

module _ (t : Tools) where
  open t use {Wire}

  -- `rtc4162_get` and then, if it succeeds, `testdt`: the time if it is valid.
  unfoldable pub read_valid : Bytes → Rtc4162 Wire → Option Tm × Rtc4162 Wire
  read_valid buf d =
      let (got, d') = rtc4162_get t buf d in
      (elim got [ none ↦ none | some dt ↦ if testdt dt then none else some dt ], d')

  -- The chip's time is not valid: it is set from the system time if that is synchronised.
  unfoldable pub init_from_ntp : Host → ℕ → Bytes → Rtc Wire → Bool × Rtc Wire
  init_from_ntp h byte buf r =
      if h.ntp_fails || h.time_error
      then (true, record r { rtc_state = rtc_state_not_synced })
      else let (_, d₁) = rtc4162_set t h.now r.driver in
        let (failed, d₂) = rtc4162_init t byte d₁ in
        if failed
        then (true, record r { driver = d₂ })
        else let (valid, d₃) = read_valid buf d₂ in
          (elim valid [ none ↦ true | some _ ↦ false ], record r { driver = d₃ })

  -- `byte` and `buf` are the local variables of the driver's functions before anything was read
  -- into them. True where the C function returns -1.
  unfoldable pub rtc_init : Host → ℕ → Bytes → Rtc Wire → Bool × Rtc Wire
  rtc_init h byte buf r =
      let r₀ = record r { rtc_state = rtc_state_uninitialized } in
      if h.mutex_fails
      then (true, r₀)
      else let (failed, d₁) = rtc4162_init t byte r.driver in
        if failed
        then (true, record r₀ { driver = d₁ })
        else let (valid, d₂) = read_valid buf d₁ in
          elim valid [
            | none ↦ init_from_ntp h byte buf (record r₀ { driver = d₂ })
            | some dt ↦
                let (bad, r₁) = set_system_time h dt (record r₀ { driver = d₂ }) in
                if bad then (true, r₁) else (false, record r₁ { rtc_state = rtc_state_ok })
          ]

  -- Where the chip cannot be read, the time that was asked for is used. The second component is
  -- the result: true where the C function returns -1. A return on a failed command keeps the mutex.
  unfoldable pub rtc_set_dt : Host → Bytes → Tm → Rtc Wire → Bool × Rtc Wire
  rtc_set_dt h buf dt r =
      let (_, d₁) = rtc4162_set t dt r.driver in
      let (got, d₂) = rtc4162_get t buf d₁ in
      let dt' : Tm = elim got [ none ↦ dt | some g ↦ g ] in
      let (bad, r₁) = set_system_time h dt' (record r { driver = d₂; held = r.held + 1 }) in
      if bad then (true, r₁) else (
        elim got [ none ↦ true | some g ↦ testdt g ],
        record r₁ { rtc_state = rtc_state_ok; held = r.held },
      )

-- `rtc_get_state` reads the state under the mutex, which it takes and gives back.
unfoldable pub rtc_get_state : {Wire : Type 0} → Rtc Wire → RtcState × Rtc Wire
rtc_get_state r = (r.rtc_state, r)

unfoldable pub rtc_get_state_text : {Wire : Type 0} → Rtc Wire → Bytes
rtc_get_state_text r = elim r.rtc_state [
  | rtc_state_uninitialized ↦ codes "uninitialized"
  | rtc_state_ok ↦ codes "running"
  | rtc_state_not_synced ↦ codes "not synced"
]
