-- ===== src/Discovery/Added.antt =====
-- What the search for new devices adds to the container.
use lielas.Base.{
  ℕ, ◌≡◌, ◌≢◌, refl, sym, ap, ◌∙◌, Bool, true, Option, none, some, List, [], ◌∷◌, ◌++◌, Bytes,
  ==_iff, str_eq, str_eq_refl, Run, done, fault, out_of_fuel, ◌>>=◌, inl, inr, Bool-cases,
}
use mathlib.Core.Path.{subst}
use lielas.Tm.{Tm}
use lielas.Lwp.Wkc.{init_wkc}
use lielas.Device.Slots.{Ptr}
use lielas.Device.Deletion.{created}
use lielas.Device.Container.{missing, search}
use lielas.Device.Container.Lookup.{members, add-members}
use lielas.Device.Container.Saving.{Library}
use lielas.Sql.{Server}
use lielas.Handler.Coap.{Request, Reply}
use lielas.Handler.Runmode.{Calendar}
use lielas.Handler.Scan.{DataTable, TimeText, Target}
use lielas.Discovery.{Env, SearchState, Step, ◌>>?◌, give, new_object}
use lielas.Discovery.Inquiry.{
  NewDevice, inquire, rounds_of, inquire_wkc, inquire_info, inquire_mac, inquire_device,
  inquire_moduls, switch_off,
}
use lielas.Discovery.Setup.{allocates, add_device, save_device, set_up, register, new_device}
use lielas.Discovery.Kept.{Kept, inquire-Keeps}

-- A search with a device behind the others that passes the test.
search_last :
    (test : Ptr → Bool) (xs : List Ptr) (d : Ptr)
    → test d ≡ true
    → (q : Ptr) × (search test (xs ++ d ∷ []) ≡ some q)
unfolding search
search_last test [] d passes = (d, rw passes refl)
search_last test (x ∷ xs) d passes =
    let (q, e) = search_last test xs d passes in
    elim (Bool-cases (test x)) [ inl here ↦ (x, rw here refl) | inr other ↦ (q, rw other e) ]

-- A property of the result, if there is one.
unfoldable Returns : {A : Type 0} → (A → Type 0) → Run A → Type 0
Returns P (done a) = P a
Returns P fault = Unit
Returns P out_of_fuel = Unit

Returns-bind :
    {A B : Type 0} (P : A → Type 0) (Q : B → Type 0) (r : Run A) (f : A → Run B)
    → Returns P r
    → ((a : A) → P a → Returns Q (f a))
    → Returns Q (r >>= f)
unfolding Returns
Returns-bind P Q (done a) f first next = next a first
Returns-bind P Q fault f first next = tt
Returns-bind P Q out_of_fuel f first next = tt

Returns-any :
    {A B : Type 0} (Q : B → Type 0) (r : Run A) (f : A → Run B)
    → ((a : A) → Returns Q (f a))
    → Returns Q (r >>= f)
unfolding Returns
Returns-any Q (done a) f next = next a
Returns-any Q fault f next = tt
Returns-any Q out_of_fuel f next = tt

Returns-done : {A : Type 0} (P : A → Type 0) (r : Run A) (a : A) → Returns P r → r ≡ done a → P a
unfolding Returns
Returns-done P (done b) a held eq = let same : b ≡ a = cc eq in subst P same held
Returns-done P fault a held eq = cc eq
Returns-done P out_of_fuel a held eq = cc eq

Returns-weaken :
    {A : Type 0} (P Q : A → Type 0) (r : Run A) → ((a : A) → P a → Q a) → Returns P r → Returns Q r
unfolding Returns
Returns-weaken P Q (done a) f held = f a held
Returns-weaken P Q fault f held = tt
Returns-weaken P Q out_of_fuel f held = tt

Returns-result : {A : Type 0} (P : A → Type 0) (a : A) → P a → Returns P (done a)
unfolding Returns
Returns-result P a held = held

-- Of a step's result, where the step goes on.
abbrev Gives : {Real W Db A : Type 0} → (A → Type 0) → Option A × SearchState Real W Db → Type 0
Gives P o = elim o.0 [ none ↦ Unit | some a ↦ P a ]

abbrev Ends : {Real W Db A : Type 0} → (A → Type 0) → Step Real W Db A → Type 0
Ends {Real} {W} {Db} P f = (s : SearchState Real W Db) → Returns (Gives P) (f s)

Returns-option :
    {Real W Db A B : Type 0} (P : B → Type 0) (r : Run (Option A × SearchState Real W Db))
    (g : A → Step Real W Db B)
    → ((a : A) → Ends P (g a))
    → Returns (Gives P) (r >>= λ (a, s'). elim a [ none ↦ done (none, s') | some x ↦ g x s' ])
unfolding Returns
Returns-option P (done (none, s)) g next = tt
Returns-option P (done (some x, s)) g next = next x s
Returns-option P fault g next = tt
Returns-option P out_of_fuel g next = tt

Ends-then :
    {Real W Db A B : Type 0} (P : B → Type 0) (f : Step Real W Db A) (g : A → Step Real W Db B)
    → ((a : A) → Ends P (g a))
    → Ends P (f >>? g)
unfolding Returns
Ends-then P f g next s = Returns-option P (f s) g next

Ends-give :
    {Real W Db A : Type 0} (P : A → Type 0) (x : A)
    → P x
    → Ends {Real = Real} {W = W} {Db = Db} P (give x)
unfolding Returns
Ends-give P x held s = held

module _ {Real W : Type 0} (c : Library Real) (v : Server) (e : Env Real)
    (transmit : Request → Reply → W → Reply × W) where
  -- The device that is asked has the address.
  inquire-address :
      (address : Bytes)
      → Ends (λ (p, n). n.saved.address ≡ address) (inquire c v e transmit address)
  unfolding inquire
  inquire-address address =
      let P : Ptr × NewDevice Real → Type 0 = λ (p, n). n.saved.address ≡ address in
      Ends-then P (new_object c v e transmit) _ (λ p.
        Ends-then P (switch_off c v e transmit address) _ (λ failed.
          Ends-then P (inquire_wkc c v e transmit address (init_wkc (e.left_wkc p))) _ (λ w.
            Ends-then P (inquire_info c v e transmit address p w) _ (λ (name, sw_ver).
              Ends-then P (inquire_mac c v e transmit address w) _ (λ mac.
                Ends-then P (inquire_device c v e transmit address p w) _ (λ (supply, count).
                  Ends-then P
                    (inquire_moduls c v e transmit (rounds_of count) address w 1
                      (created (c.left p)) [])
                    _ (λ ms. Ends-give P _ refl)))))))

  save_device-keeps :
      (p : Ptr) (n : NewDevice Real) (s : SearchState Real W v.Db)
      → Returns
          (λ s'. (s'.ldc ≡ s.ldc) × ((s'.devices p).address ≡ n.saved.address))
          (save_device c v e transmit p n s)
  unfolding save_device
  save_device-keeps p n s =
      let same = (==_iff p p).1 refl in
      Returns-any _ _ _ (λ (bad, saved', d₂, loads'). Returns-result _ _ (refl, rw same refl))

  module _ (t : DataTable) (cal : Calendar) (x : TimeText cal.Broken) (mktime : Tm → Tm)
      (print : Target → (cnr raw : ℕ) → Bytes) where
    set_up-keeps :
        (n : NewDevice Real) (s : SearchState Real W v.Db)
        → Returns
            (λ s'. (s'.ldc ≡ s.ldc) × (s'.devices ≡ s.devices))
            (set_up c v e transmit t cal x mktime print n s)
    unfolding set_up
    set_up-keeps n s = Returns-any _ _ _ (λ (failed, net₁). Returns-result _ _ (refl, refl))

    abbrev IsAdded : Bytes → SearchState Real W v.Db → Ptr → SearchState Real W v.Db → Type 0
    IsAdded address s p s' =
        (members s'.ldc ≡ members s.ldc ++ p ∷ []) × ((s'.devices p).address ≡ address)

    register-adds :
        (p : Ptr) (n : NewDevice Real) (s : SearchState Real W v.Db)
        → s.ldc ≢ missing
        → allocates c s.loads.calls ≡ true
        → Returns
            (λ s'. IsAdded n.saved.address s p s')
            (register c v e transmit t cal x mktime print p n s)
    unfolding register add_device
    register-adds p n s there made =
        let added = add-members s.ldc p there in
        Returns-bind _ _ _ _ (save_device-keeps p n (add_device c v e transmit p n s)) (λ s₁ saved.
          Returns-weaken _ _ _
            (λ s₂ kept. (
              ap members (kept.0 ∙ saved.0) ∙ rw made added,
              ap (λ f. (f p).address) kept.1 ∙ saved.1,
            ))
            (set_up-keeps n s₁))

    -- Where the search goes on.
    abbrev Adds : Bytes → SearchState Real W v.Db → Option Ptr × SearchState Real W v.Db → Type 0
    Adds address s o = elim o.0 [ none ↦ Unit | some p ↦ IsAdded address s p o.1 ]

    new_device-Adds :
        (address : Bytes) (s : SearchState Real W v.Db)
        → s.ldc ≢ missing
        → ((i : ℕ) → allocates c i ≡ true)
        → Returns (Adds address s) (new_device c v e transmit t cal x mktime print address s)
    unfolding new_device Returns Kept
    new_device-Adds address s there made =
        go (inquire c v e transmit address s) (inquire-Keeps c v e transmit address s)
          (inquire-address address s)
      where
        go :
            (r : Run (Option (Ptr × NewDevice Real) × SearchState Real W v.Db))
            → Kept s r
            → Returns (Gives (λ (p, n). n.saved.address ≡ address)) r
            → Returns (Adds address s) (
                ◌>>=◌ {B = Option Ptr × SearchState Real W v.Db} r (λ (a, s₁). elim a [
                  | none ↦ done (none, s₁)
                  | some (p, n) ↦ register c v e transmit t cal x mktime print p n s₁ >>= give p
                ]))
        go (done (none, s₁)) kept named = tt
        go (done (some (p, n), s₁)) kept named =
            Returns-bind (λ s₂. IsAdded n.saved.address s₁ p s₂) (Adds address s) _ (give p)
              (register-adds p n s₁ (λ gone. there (sym kept.1 ∙ gone)) (made s₁.loads.calls))
              (λ s₂ added. (added.0 ∙ rw kept.1 refl, added.1 ∙ named))
        go fault kept named = tt
        go out_of_fuel kept named = tt

    -- When a new device has answered all questions and the search goes on, the container has it
    -- behind its other devices, with its address, so that the search for the address finds a
    -- device; there was a container, and the allocations succeed.
    pub new_device-added :
        (address : Bytes) (s s' : SearchState Real W v.Db) (p : Ptr)
        → s.ldc ≢ missing
        → ((i : ℕ) → allocates c i ≡ true)
        → new_device c v e transmit t cal x mktime print address s ≡ done (some p, s')
        → (members s'.ldc ≡ members s.ldc ++ p ∷ [])
          × ((s'.devices p).address ≡ address)
          × ((q : Ptr) × (search (λ p. str_eq (s'.devices p).address address) (members s'.ldc)
                ≡ some q))
    new_device-added address s s' p there made eq =
        let (listed, named) = Returns-done _ _ _ (new_device-Adds address s there made) eq in
        let same : str_eq (s'.devices p).address address ≡ true = rw named (str_eq_refl address) in
        let (q, found) =
          search_last (λ r. str_eq (s'.devices r).address address) (members s.ldc) p same in
        (listed, named, (q, rw listed found))
