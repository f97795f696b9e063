-- ===== src/Handler/Runmode/Lasts.antt =====
-- How long the registration mode lasts, and what every sequence of calls keeps.
use lielas.Base.{ℕ, ◌+◌, ◌≤◌, ◌≡◌, ◌≢◌, Bool, true, none, arith, if◌then◌else◌, ltb}
use lielas.Handler.Runmode.{
  Calendar, runmode_normal, runmode_register, regmode_len, max_regmode_len, Mode, get_runmode,
  set_runmode, is_running, runmode_handler,
}

module _ (c : Calendar) where
  open c use {difftime-later}

  -- The registration mode that is set at `t` from another mode lasts until `t + 60`: the handler at
  -- a time `s` keeps it exactly when `s` is before that end and less than 600 seconds before it,
  -- and otherwise goes back to the normal mode.
  pub registration_lasts :
      (t s : ℕ) (m : Mode c)
      → m.runmode ≢ runmode_register
      → let m' = runmode_handler c s (set_runmode c true t runmode_register m).1 in
        m'.runmode ≡ (
          if ltb s (t + regmode_len)
          then (if ltb (t + regmode_len) (s + max_regmode_len)
              then runmode_register
              else runmode_normal)
          else runmode_normal)
  unfolding set_runmode runmode_handler get_runmode is_running
  registration_lasts t s m other = ground (arith, difftime-later s t regmode_len)

  -- The calls that change the state.
  pub data Step : Mode c → Mode c → Type 0 where
    set :
        (allocated : Bool) (now mode : ℕ) (m : Mode c)
        → Step m (set_runmode c allocated now mode m).1
    tick : (now : ℕ) (m : Mode c) → Step m (runmode_handler c now m)

  pub data Reach (m : Mode c) : Mode c → Type 0 where
    here : Reach m m
    next : {a b : Mode c} → Reach m a → Step a b → Reach m b

  -- The mode is one of the two, and the registration mode has a timer that ends it.
  pub record IsSound (m : Mode c) : Type 0 where
    pub known : (m.runmode ≤ runmode_register)
    pub timed : m.runmode ≡ runmode_register → m.end_timer ≢ none

  set_runmode-IsSound :
      (allocated : Bool) (now mode : ℕ) (m : Mode c)
      → IsSound m
      → IsSound (set_runmode c allocated now mode m).1
  unfolding set_runmode
  set_runmode-IsSound allocated now mode m h = ground (arith, h.timed)

  runmode_handler-IsSound : (now : ℕ) (m : Mode c) → IsSound m → IsSound (runmode_handler c now m)
  unfolding runmode_handler get_runmode
  runmode_handler-IsSound now m h =
      ground (arith, h.timed, set_runmode-IsSound true now runmode_normal m h)

  Step-IsSound : {a b : Mode c} → Step a b → IsSound a → IsSound b
  Step-IsSound (set allocated now mode m) h = set_runmode-IsSound allocated now mode m h
  Step-IsSound (tick now m) h = runmode_handler-IsSound now m h

  -- Every sequence of calls of `lielas_setRunmode` and `lielas_runmodeHandler` from a sound state
  -- leads to a sound state: the mode is one of the two, and the registration mode has a timer that
  -- ends it.
  pub Reach-IsSound : {a b : Mode c} → Reach a b → IsSound a → IsSound b
  Reach-IsSound here h = h
  Reach-IsSound (next r s) h = Step-IsSound s (Reach-IsSound r h)
