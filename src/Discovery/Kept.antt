-- ===== src/Discovery/Kept.antt =====
-- What the questions to a new device do not change.
use lielas.Base.{
  ℕ, zero, suc, ◌≡◌, ◌≢◌, refl, ap, ◌∙◌, Bool, true, false, Option, none, some, List, Bytes,
  if◌then◌else◌, ltb, get_elem?, Run, done, fault, out_of_fuel, ◌>>=◌,
}
use lielas.Tm.{Tm}
use lielas.Lwp.Wkc.{Wkc, Resource}
use lielas.Lwp.Attr.{get_attr_value}
use lielas.Lwp.Parse.{parse_wkc}
use lielas.Device.Slots.{Ptr, Slots, max_slots, add}
use lielas.Device.Container.Saving.{Library, SavedChannel, SavedModul}
use lielas.Sql.{Server}
use lielas.Handler.Coap.{Request, Reply}
use lielas.Handler.Logger.{string_of}
use lielas.Handler.Runmode.{Calendar}
use lielas.Handler.Scan.{DataTable, TimeText, Target}
use lielas.Discovery.{
  Env, SearchState, Step, ◌>>?◌, give, stop, lost, new_object, ask, ask_content, read_value,
}
use lielas.Discovery.Inquiry.{
  NewDevice, read_attributes, inquire_channel, inquire_channels, inquire_count, inquire_moduls,
  inquire_wkc, inquire_device, inquire_info, inquire_mac, switch_off, inquire,
}
use lielas.Discovery.Setup.{register, new_device}

-- The database, the container and its devices are the same.
abbrev pub AreSame : {Real W Db : Type 0} → (s s' : SearchState Real W Db) → Type 0
AreSame s s' = (s'.db ≡ s.db) × (s'.ldc ≡ s.ldc) × (s'.devices ≡ s.devices)

-- If there is a result, they are the same in it.
unfoldable pub Kept :
    {Real W Db A : Type 0} → SearchState Real W Db → Run (Option A × SearchState Real W Db) → Type 0
Kept s (done (a, s')) = AreSame s s'
Kept s fault = Unit
Kept s out_of_fuel = Unit

abbrev pub Keeps : {Real W Db A : Type 0} → Step Real W Db A → Type 0
Keeps {Real} {W} {Db} f = (s : SearchState Real W Db) → Kept s (f s)

AreSame-trans :
    {Real W Db : Type 0} (s s₁ s₂ : SearchState Real W Db)
    → AreSame s s₁
    → AreSame s₁ s₂
    → AreSame s s₂
AreSame-trans s s₁ s₂ a b = (b.0 ∙ a.0, b.1 ∙ a.1, b.2 ∙ a.2)

Kept-trans :
    {Real W Db A : Type 0} (s s₁ : SearchState Real W Db)
    (r : Run (Option A × SearchState Real W Db))
    → AreSame s s₁
    → Kept s₁ r
    → Kept s r
unfolding Kept
Kept-trans s s₁ (done (a, s₂)) same kept = AreSame-trans s s₁ s₂ same kept
Kept-trans s s₁ fault same kept = tt
Kept-trans s s₁ out_of_fuel same kept = tt

-- What is done with a result.
pub Kept-bind :
    {Real W Db A B : Type 0} (s : SearchState Real W Db) (g : A → Step Real W Db B)
    (r : Run (Option A × SearchState Real W Db))
    → Kept s r
    → ((x : A) → Keeps (g x))
    → Kept s (r >>= λ (a, s'). elim a [ none ↦ done (none, s') | some x ↦ g x s' ])
unfolding Kept
Kept-bind s g (done (none, s₁)) kept next = kept
Kept-bind s g (done (some x, s₁)) kept next = Kept-trans s s₁ (g x s₁) kept (next x s₁)
Kept-bind s g fault kept next = tt
Kept-bind s g out_of_fuel kept next = tt

Keeps-then :
    {Real W Db A B : Type 0} (f : Step Real W Db A) (g : A → Step Real W Db B)
    → Keeps f
    → ((x : A) → Keeps (g x))
    → Keeps (f >>? g)
Keeps-then f g first next s = Kept-bind s g (f s) (first s) next

Keeps-give : {Real W Db A : Type 0} (x : A) → Keeps {Real = Real} {W = W} {Db = Db} (give x)
unfolding Kept
Keeps-give x s = (refl, refl, refl)

Keeps-stop : {Real W Db : Type 0} (A : Type 0) → Keeps {Real = Real} {W = W} {Db = Db} {A = A} stop
unfolding Kept
Keeps-stop A s = (refl, refl, refl)

-- A run that does not change the state.
Kept-run :
    {Real W Db A B : Type 0} (s : SearchState Real W Db) (r : Run B) (f : B → Option A)
    → Kept s (r >>= λ b. done (f b, s))
unfolding Kept
Kept-run s (done b) f = (refl, refl, refl)
Kept-run s fault f = tt
Kept-run s out_of_fuel f = tt

Keeps-if :
    {Real W Db A : Type 0} (b : Bool) (f g : Step Real W Db A)
    → Keeps f
    → Keeps g
    → Keeps (if b then f else g)
Keeps-if true f g first second = first
Keeps-if false f g first second = second

Keeps-bounded :
    {Real W Db A : Type 0} (b : Bool) (f : Step Real W Db A)
    → Keeps f
    → Keeps (if b then f else lost)
unfolding Kept
Keeps-bounded true f kept s = kept s
Keeps-bounded false f kept s = tt

Keeps-there :
    {Real W Db A B : Type 0} (o : Option A) (f : A → Step Real W Db B)
    → ((x : A) → Keeps (f x))
    → (s : SearchState Real W Db)
    → Kept {A = B} s (elim o as (λ k. Step Real W Db B) [ none ↦ lost | some x ↦ f x ] s)
unfolding Kept
Keeps-there none f kept s = tt
Keeps-there (some x) f kept s = kept x s

module _ {Real W : Type 0} (c : Library Real) (v : Server) (e : Env Real)
    (transmit : Request → Reply → W → Reply × W) where
  new_object-Keeps : Keeps (new_object c v e transmit)
  unfolding new_object Kept
  new_object-Keeps s =
      elim (c.malloc s.loads.calls)
        as (λ o. Kept s (elim o [
          | none ↦ fault
          | some p ↦
              done (some p, record s { loads = record s.loads { calls = suc s.loads.calls } })
        ])) [ none ↦ tt | some p ↦ (refl, refl, refl) ]

  ask-Keeps : (address resource : Bytes) → Keeps (ask c v e transmit address resource)
  unfolding ask Kept
  ask-Keeps address resource s = (refl, refl, refl)

  ask_content-Keeps :
      (address resource : Bytes) → Keeps (ask_content c v e transmit address resource)
  unfolding ask_content
  ask_content-Keeps address resource =
      Keeps-then _ _ (ask-Keeps address resource)
        (λ cb. Keeps-if _ _ _ (Keeps-give cb.buf) (Keeps-stop _))

  read_value-Keeps :
      (answer : Bytes) (res : Resource) (name buf : Bytes) (size : ℕ)
      → Keeps (read_value c v e transmit answer res name buf size)
  unfolding read_value
  read_value-Keeps answer res name buf size s =
      Kept-run s (get_attr_value answer res name buf size) _

  read_attributes-Keeps :
      (p : Ptr) (j : ℕ) (res : Resource) (answer : Bytes)
      → Keeps (read_attributes c v e transmit p j res answer)
  unfolding read_attributes
  read_attributes-Keeps p j res answer =
      let read = read_value-Keeps answer res in
      Keeps-then _ _ (read _ _ _) (λ unit. Keeps-then _ _ (read _ _ _) (λ type_text.
        Keeps-then _ _ (read _ _ _) (λ class.
          Keeps-then _ _ (read _ _ _) (λ ex. Keeps-if _ _ _ (Keeps-stop _) (Keeps-give _)))))

  inquire_channel-Keeps :
      (address : Bytes) (w : Wkc) (j : ℕ) → Keeps (inquire_channel c v e transmit address w j)
  unfolding inquire_channel Kept
  inquire_channel-Keeps address w j = Keeps-then _ _ new_object-Keeps (λ p.
      Keeps-bounded (ltb j max_slots) _ (
        Keeps-then _ _ (ask_content-Keeps _ _) (λ answer.
          Keeps-there (get_elem? w.channel j) _ (λ res.
            Keeps-then _ _ (read_attributes-Keeps p j res answer)
              (λ ch. Keeps-give {A = Ptr × SavedChannel Real} (p, ch))))))

  -- A step behind an addition to an array.
  Keeps-add :
      {A : Type 0} (p : Ptr) (slots : Slots) (f : Slots → Step Real W v.Db A)
      → ((slots' : Slots) → Keeps (f slots'))
      → Keeps (λ s. add p slots >>= λ slots'. f slots' s)
  unfolding Kept
  Keeps-add p slots f next s = elim (add p slots) as (λ r. Kept s (r >>= λ slots'. f slots' s)) [
    | done slots' ↦ next slots' s
    | fault ↦ tt
    | out_of_fuel ↦ tt
  ]

  inquire_channels-Keeps :
      (n : ℕ) (address : Bytes) (w : Wkc) (j : ℕ) (slots : Slots) (chs : List (SavedChannel Real))
      → Keeps (inquire_channels c v e transmit n address w j slots chs)
  unfolding inquire_channels
  inquire_channels-Keeps zero address w j slots chs = Keeps-give chs
  inquire_channels-Keeps (suc n) address w j slots chs =
      Keeps-then _ _ (inquire_channel-Keeps address w j) (λ (p, ch).
        Keeps-add p slots _ (λ slots'. inquire_channels-Keeps n address w (suc j) slots' _))

  inquire_count-Keeps : (address : Bytes) (w : Wkc) → Keeps (inquire_count c v e transmit address w)
  unfolding inquire_count
  inquire_count-Keeps address w = Keeps-then _ _ (ask-Keeps _ _) (λ cb.
      Keeps-then _ _ (read_value-Keeps _ _ _ _ _)
        (λ attr. Keeps-if _ _ _ (Keeps-stop _) (Keeps-give _)))

  inquire_moduls-Keeps :
      (n : ℕ) (address : Bytes) (w : Wkc) (i : ℕ) (slots : Slots) (ms : List (SavedModul Real))
      → Keeps (inquire_moduls c v e transmit n address w i slots ms)
  unfolding inquire_moduls Kept
  inquire_moduls-Keeps zero address w i slots ms = Keeps-give ms
  inquire_moduls-Keeps (suc n) address w i slots ms = Keeps-then _ _ new_object-Keeps (λ p.
      Keeps-bounded (ltb i max_slots) _ (
        Keeps-then _ _ (inquire_count-Keeps address w) (λ count. Keeps-add p slots _ (λ slots'.
          Keeps-then _ _ (inquire_channels-Keeps _ _ _ _ _ _)
            (λ chs. inquire_moduls-Keeps n address w (suc i) slots' _)))))

  inquire_wkc-Keeps : (address : Bytes) (w : Wkc) → Keeps (inquire_wkc c v e transmit address w)
  unfolding inquire_wkc Kept
  inquire_wkc-Keeps address w s =
      let asking = record s { cb = record s.cb { buf = s.wkc } } in
      Kept-trans s asking _ (refl, refl, refl)
        (Keeps-then _ _ (ask_content-Keeps _ _)
          (λ answer. λ s'.
            elim (parse_wkc e.fuel (string_of answer) w)
              as (λ r. Kept s' (
                r >>= λ (failed, w'). done (
                  if failed then none else some w',
                  record s' { wkc = answer; cb = record s'.cb { buf = s.cb.buf } },
                ))) [ done o ↦ (refl, refl, refl) | fault ↦ tt | out_of_fuel ↦ tt ])
          asking)

  inquire_device-Keeps :
      (address : Bytes) (p : Ptr) (w : Wkc) → Keeps (inquire_device c v e transmit address p w)
  unfolding inquire_device
  inquire_device-Keeps address p w = Keeps-then _ _ (ask_content-Keeps _ _) (λ answer.
      let read = read_value-Keeps answer w.device in
      Keeps-then _ _ (read _ _ _) (λ supply.
        Keeps-then _ _ (read _ _ _) (λ attr. Keeps-if _ _ _ (Keeps-stop _) (Keeps-give _))))

  inquire_info-Keeps :
      (address : Bytes) (p : Ptr) (w : Wkc) → Keeps (inquire_info c v e transmit address p w)
  unfolding inquire_info
  inquire_info-Keeps address p w = Keeps-then _ _ (ask_content-Keeps _ _) (λ answer.
      let read = read_value-Keeps answer w.info in
      Keeps-then _ _ (read _ _ _) (λ name. Keeps-then _ _ (read _ _ _) (λ sw_ver. Keeps-give _)))

  inquire_mac-Keeps : (address : Bytes) (w : Wkc) → Keeps (inquire_mac c v e transmit address w)
  unfolding inquire_mac
  inquire_mac-Keeps address w =
      Keeps-then _ _ (ask_content-Keeps _ _)
        (λ answer. Keeps-then _ _ (read_value-Keeps _ _ _ _ _) (λ mac. Keeps-give _))

  switch_off-Keeps : (address : Bytes) → Keeps (switch_off c v e transmit address)
  unfolding switch_off Kept
  switch_off-Keeps address s = (refl, refl, refl)

  pub inquire-Keeps : (address : Bytes) → Keeps (inquire c v e transmit address)
  unfolding inquire
  inquire-Keeps address = Keeps-then _ _ new_object-Keeps (λ p.
      Keeps-then _ _ (switch_off-Keeps address) (λ failed.
        Keeps-then _ _ (inquire_wkc-Keeps _ _) (λ w.
          Keeps-then _ _ (inquire_info-Keeps _ p w) (λ (name, sw_ver).
            Keeps-then _ _ (inquire_mac-Keeps _ w) (λ mac.
              Keeps-then _ _ (inquire_device-Keeps _ p w) (λ (supply, count).
                Keeps-then _ _ (inquire_moduls-Keeps _ _ _ _ _ _) (λ ms. Keeps-give _)))))))

  module _ (t : DataTable) (cal : Calendar) (x : TimeText cal.Broken) (mktime : Tm → Tm)
      (print : Target → (cnr raw : ℕ) → Bytes) where
    -- The part behind the questions always goes on.
    goes_on :
        (p : Ptr) (n : NewDevice Real) (s s' : SearchState Real W v.Db)
        → (register c v e transmit t cal x mktime print p n s >>= give p) ≢ done (none, s')
    goes_on p n s s' eq = go (register c v e transmit t cal x mktime print p n s) eq
      where
        go : (r : Run (SearchState Real W v.Db)) → (r >>= give p) ≢ done (none, s')
        go (done s₁) eq = cc eq
        go fault eq = cc eq
        go out_of_fuel eq = cc eq

    -- A new device that does not answer every question as the search needs it, so that the search
    -- ends there, leaves the database and the devices of the container as they were.
    pub new_device-stopped :
        (address : Bytes) (s s' : SearchState Real W v.Db)
        → new_device c v e transmit t cal x mktime print address s ≡ done (none, s')
        → (s'.db ≡ s.db) × (s'.ldc ≡ s.ldc) × (s'.devices ≡ s.devices)
    unfolding new_device Kept
    new_device-stopped address s s' eq =
        go (inquire c v e transmit address s) (inquire-Keeps address s) eq
      where
        go :
            (r : Run (Option (Ptr × NewDevice Real) × SearchState Real W v.Db))
            → Kept s r
            → ◌>>=◌ {B = Option Ptr × SearchState Real W v.Db} r (λ (a, s₁). elim a [
              | none ↦ done (none, s₁)
              | some (p, n) ↦ register c v e transmit t cal x mktime print p n s₁ >>= give p
            ])
              ≡ done (none, s')
            → AreSame s s'
        go (done (none, s₁)) kept eq =
            let same : s' ≡ s₁ = cc eq in
            (
              ap (λ u. u.db) same ∙ kept.0,
              ap (λ u. u.ldc) same ∙ kept.1,
              ap (λ u. u.devices) same ∙ kept.2,
            )
        go (done (some (p, n), s₁)) kept eq = absurd (goes_on p n s₁ s' eq)
        go fault kept eq = cc eq
        go out_of_fuel kept eq = cc eq
