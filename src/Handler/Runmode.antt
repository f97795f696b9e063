-- ===== src/Handler/Runmode.antt =====
-- `lielas_setRunmode`, `lielas_runmodeHandler` and the functions that read their state. The clock
-- is the C library's: a time is a count of seconds, and `struct tm` values are compared through
-- `mktime` and `difftime`.
pub mod Lasts
use lielas.Base.{
  ℕ, ◌+◌, ◌≡◌, Bool, true, false, ◌&&◌, Option, none, some, ◌==◌, if◌then◌else◌, ℤ, pos, negsuc,
  ltb_ℤ, sub_ℕ,
}

-- `gmtime` of a time, `tm_sec += n` followed by `mktime`, and `difftime` of the `mktime` of two
-- broken-down times. The law is what the C library documents of them.
pub record Calendar : Type 1 where
  pub Broken : Type 0
  pub gmtime : ℕ → Broken
  pub later : ℕ → Broken → Broken
  pub difftime : Broken → Broken → ℤ
  pub difftime-later : (s t n : ℕ) → difftime (gmtime s) (later n (gmtime t)) ≡ sub_ℕ s (t + n)

abbrev pub runmode_normal : ℕ
runmode_normal = 0

abbrev pub runmode_register : ℕ
runmode_register = 1

-- `SET_STD_REGMODE_LEN` and `SET_STD_MAX_REGMODE_LEN` of settings.h.
abbrev pub regmode_len : ℕ
regmode_len = 60

abbrev pub max_regmode_len : ℕ
max_regmode_len = 600

module _ (c : Calendar) where
  open c use {Broken, gmtime, later, difftime}

  pub record Mode : Type 0 where
    pub runmode : ℕ
    pub end_timer : Option Broken

  unfoldable pub get_runmode : Mode → ℕ
  get_runmode m = m.runmode

  unfoldable pub get_end_timer : Mode → Option Broken
  get_end_timer m = m.end_timer

  -- `allocated` is false where `malloc` fails. The old timer is freed before. The Boolean of the
  -- result is true where the C function returns -1.
  unfoldable pub set_runmode : (allocated : Bool) → (now mode : ℕ) → Mode → Bool × Mode
  set_runmode allocated now mode m =
      if mode == m.runmode
      then (false, m)
      else if mode == runmode_register
      then (if allocated
          then (false, record { runmode = mode; end_timer = some (later regmode_len (gmtime now)) })
          else (true, record m { end_timer = none }))
      else if mode == runmode_normal
      then (false, record m { runmode = mode })
      else (false, m)

  -- The timer runs, and ends less than the longest time from now.
  unfoldable pub is_running : ℕ → Option Broken → Bool
  is_running now none = false
  is_running now (some t) =
      let diff = difftime (gmtime now) t in
      ltb_ℤ diff (pos 0) && ltb_ℤ (sub_ℕ 0 max_regmode_len) diff

  unfoldable pub runmode_handler : ℕ → Mode → Mode
  runmode_handler now m =
      if get_runmode m == runmode_register
      then (if is_running now m.end_timer then m else (set_runmode true now runmode_normal m).1)
      else m
