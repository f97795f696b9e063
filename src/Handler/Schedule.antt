-- ===== src/Handler/Schedule.antt =====
-- The first part of `HandleDevices` of devicehandler.c: when it scans, and which device it takes.
pub mod Turns
use lielas.Base.{
  ℕ, ◌+◌, Bool, true, false, not, ◌&&◌, ◌||◌, Option, none, some, List, [], ◌∷◌, ◌==◌, ltb,
  if◌then◌else◌, ℤ, pos, negsuc, ltb_ℤ, Run, done, fault, ◌>>=◌,
}
use lielas.Device.Slots.{Ptr}
use lielas.Device.Container.{Ldc}
use lielas.Device.Container.Cursor.{Cursor, get_first_device, get_next_device, choose_device}
use lielas.Handler.Runmode.{Calendar}

-- `GET_FIRST_DEVICE_DATA_INTERVAL` and `GET_NEXT_DEVICE_DATA_INTERVAL` of lielas.h.
abbrev pub first_interval : ℕ
first_interval = 90

abbrev pub next_interval : ℕ
next_interval = 90

-- What `malloc` and `time` return in a call: the two allocations, and the time at its start and
-- after the choice of the device.
pub record Moment : Type 0 where
  pub allocated : Bool
  pub allocated' : Bool
  pub now : ℕ
  pub now' : ℕ

-- `tm_sec` is the member of that name, and `whole_minute` sets it to 0.
module _ (c : Calendar) (tm_sec : c.Broken → ℕ) (whole_minute : c.Broken → c.Broken) where
  open c use {Broken, gmtime, later, difftime}

  -- The static `nextScan` and `lastDevice`, and the cursor of the device container.
  pub record Schedule : Type 0 where
    pub next_scan : Option Broken
    pub last_device : Option Ptr
    pub cursor : Cursor

  -- The two tests on the time at the start.
  unfoldable pub in_window : ℕ → Bool
  in_window now = not (ltb 3 (tm_sec (gmtime now)) || ltb (tm_sec (gmtime now)) 2)

  unfoldable pub is_early : ℕ → Broken → Bool
  is_early now next =
      let diff = difftime (gmtime now) next in ltb_ℤ diff (pos 1) && ltb_ℤ (negsuc 3599) diff

  -- `next` is `nextScan`; on the first call it becomes the time of the call.
  unfoldable pub starts_scan : Moment → (next : Option Broken) → Bool
  starts_scan m next =
      in_window m.now && (elim next [ none ↦ m.allocated | some t ↦ not (is_early m.now t) ])

  -- The choice of the device and of the time of the next scan. `none` where the handler returns:
  -- with the time of the next scan lost if `malloc` fails, or without a device.
  unfoldable pub choose : Moment → Ldc → Schedule → Run (Option Ptr × Schedule)
  choose m ldc s = choose_device s.last_device ldc s.cursor >>= λ (d, cursor₁).
      get_next_device ldc cursor₁ >>= λ (after, cursor₂).
      let interval : ℕ = elim after [ none ↦ first_interval | some e ↦ next_interval ] in
      let chosen : Schedule = record { next_scan = none; last_device = d; cursor = cursor₂ } in
      done (
        if m.allocated'
        then (d, record chosen { next_scan = some (whole_minute (later interval (gmtime m.now'))) })
        else (none, chosen))

  unfoldable pub next_device : Moment → Ldc → Schedule → Run (Option Ptr × Schedule)
  next_device m ldc s = if starts_scan m s.next_scan then choose m ldc s else done (none, s)

  -- The devices that calls at these moments take.
  unfoldable pub take_turns : List Moment → Ldc → Schedule → Run (List Ptr × Schedule)
  take_turns [] ldc s = done ([], s)
  take_turns (m ∷ ms) ldc s = next_device m ldc s >>= λ (d, s₁).
      take_turns ms ldc s₁ >>= λ (ds, s₂). done ((elim d [ none ↦ ds | some e ↦ e ∷ ds ]), s₂)
