-- ===== src/Handler/Schedule/Turns.antt =====
-- Calls that start a scan take the devices in turn.
use lielas.Base.{
  ℕ, ap, length, length-append, ◌≡◌, refl, true, Option, none, some, List, [], ◌∷◌, ◌++◌, done,
  arith,
}
use lielas.Device.Slots.{Ptr}
use lielas.Device.Container.{holds}
use lielas.Device.Container.Cursor.{get_next_device, step_to, choose_device}
use lielas.Device.Container.Cursor.Rounds.{
  AreDistinct, Chain, step, choose_device-Follows, Chain-round,
}
use lielas.Handler.Runmode.{Calendar}
use lielas.Handler.Schedule.{Moment, Schedule, starts_scan, choose, next_device, take_turns}

module _ (c : Calendar) (tm_sec : c.Broken → ℕ) (whole_minute : c.Broken → c.Broken) where
  abbrev State : Type 0
  State = Schedule c tm_sec whole_minute

  -- A call at each moment starts a scan and its allocation succeeds, where `next` is the time of
  -- the next scan before them: each call sets that time to 90 seconds later, at the whole minute.
  abbrev pub AreDue : List Moment → (next : Option c.Broken) → Type 0
  AreDue [] next = Unit
  AreDue (m ∷ ms) next =
      (starts_scan c tm_sec whole_minute m next ≡ true)
      × (m.allocated' ≡ true)
      × AreDue ms (some (whole_minute (c.later 90 (c.gmtime m.now'))))

  next_device-due :
      (m : Moment) (f : Ptr) (rest : List Ptr) (s : State) (d : Ptr) (ds : List Ptr)
      → m.allocated' ≡ true
      → starts_scan c tm_sec whole_minute m s.next_scan ≡ true
      → choose_device s.last_device (holds f rest) s.cursor ≡ done (some d, some (d ∷ ds))
      → (s' : State) × (next_device c tm_sec whole_minute m (holds f rest) s ≡ done (some d, s'))
        × (s'.last_device ≡ some d)
        × (s'.next_scan ≡ some (whole_minute (c.later 90 (c.gmtime m.now'))))
  unfolding next_device choose get_next_device step_to
  next_device-due m f rest s d [] ok starts chosen = (
    record {
      next_scan = some (whole_minute (c.later 90 (c.gmtime m.now')));
      last_device = some d;
      cursor = none;
    },
    rw (starts, chosen, ok) refl,
    refl,
    refl,
  )
  next_device-due m f rest s d (e ∷ ds) ok starts chosen = (
    record {
      next_scan = some (whole_minute (c.later 90 (c.gmtime m.now')));
      last_device = some d;
      cursor = some (e ∷ ds);
    },
    rw (starts, chosen, ok) refl,
    refl,
    refl,
  )

  take_turns-Chain :
      (f : Ptr) (rest : List Ptr) (ms : List Moment) (s : State) (d : Ptr) (ds : List Ptr)
      → AreDistinct (f ∷ rest)
      → s.last_device ≡ some d
      → AreDue ms s.next_scan
      → length ms ≡ length ds
      → Chain f rest d ds
      → (s' : State) × (take_turns c tm_sec whole_minute ms (holds f rest) s ≡ done (ds, s'))
  unfolding take_turns
  take_turns-Chain f rest [] s d [] distinct last due same h = (s, refl)
  take_turns-Chain f rest [] s d (e ∷ ds) distinct last due same h = absurd (omega (arith, same))
  take_turns-Chain f rest (m ∷ ms) s d [] distinct last due same h = absurd (omega (arith, same))
  take_turns-Chain f rest (m ∷ ms) s d (e ∷ ds) distinct last due same (step follows h) =
      let (es, chosen) = choose_device-Follows f rest d e s.cursor distinct follows in
      let (s₁, took, last₁, next₁) = next_device-due m f rest s e es due.1 due.0 (rw last chosen) in
      let (s', more) =
        take_turns-Chain f rest ms s₁ e ds distinct last₁ (rw next₁ due.2) (omega (arith, same))
          h in
      (s', rw (took, more) refl)

  -- Whichever device was taken last, as many calls of `HandleDevices` as there are devices, each of
  -- which starts a scan, take every device once: those behind the last one, then those before it,
  -- then it again; the devices are distinct and do not change, and the allocations succeed.
  pub take_turns-round :
      (f : Ptr) (rest xs : List Ptr) (d : Ptr) (ys : List Ptr) (ms : List Moment) (s : State)
      → AreDistinct (f ∷ rest)
      → f ∷ rest ≡ xs ++ d ∷ ys
      → s.last_device ≡ some d
      → AreDue ms s.next_scan
      → length ms ≡ length (f ∷ rest)
      → (s' : State) × (take_turns c tm_sec whole_minute ms (holds f rest) s
          ≡ done (ys ++ (xs ++ d ∷ []), s'))
  take_turns-round f rest xs d ys ms s distinct split last due same =
      take_turns-Chain f rest ms s d (ys ++ (xs ++ d ∷ [])) distinct last due
        (omega (
          arith,
          same,
          ap length split,
          length-append xs (d ∷ ys),
          length-append ys (xs ++ d ∷ []),
          length-append xs (d ∷ []),
        ))
        (Chain-round f rest xs d ys split)
