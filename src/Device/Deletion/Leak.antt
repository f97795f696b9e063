-- ===== src/Device/Deletion/Leak.antt =====
-- What the deletion frees of members that were added.
use lielas.Base.{
  ℕ, suc, ◌+◌, ◌≤◌, ◌<◌, ◌≡◌, ◌≢◌, refl, ◌∙◌, true, Option, none, some, List, [], ◌∷◌, ◌++◌,
  append_assoc, append-nil, arith, get_elem?, set, length, length-append, length-set,
  get_elem?-set_self, get_elem?-set_ne, Run, done, fault, ◌>>=◌,
}
use lielas.Device.Slots.{Ptr, max_slots, Slots, write_slot, add}
use lielas.Device.Deletion.{
  created, create, free, free_channels, delete_modul, free_moduls, delete_device,
}

-- The members stand one behind another from index `i` on.
unfoldable pub Stand : List Ptr → ℕ → List (Option Ptr) → Type 0
Stand [] i slot = Unit
Stand (p ∷ ps) i slot = (get_elem? slot i ≡ some (some p)) × Stand ps (i + 1) slot

-- Additions one after another.
unfoldable pub add_all : List Ptr → Slots → Run Slots
add_all [] s = done s
add_all (p ∷ ps) s = add p s >>= add_all ps

Stand-set :
    (ps : List Ptr) (i k : ℕ) (q : Option Ptr) (slot : List (Option Ptr))
    → i + length ps ≤ k
    → Stand ps i slot
    → Stand ps i (set slot k q)
unfolding Stand
Stand-set [] i k q slot le h = h
Stand-set (p ∷ ps) i k q slot le (here, there) =
    let apart : k ≢ i = omega (arith, le) in
    (get_elem?-set_ne slot q apart ∙ here, Stand-set ps (i + 1) k q slot (omega (arith, le)) there)

Stand-snoc :
    (ps : List Ptr) (p : Ptr) (i : ℕ) (slot : List (Option Ptr))
    → Stand ps i slot
    → get_elem? slot (i + length ps) ≡ some (some p)
    → Stand (ps ++ p ∷ []) i slot
unfolding Stand
Stand-snoc [] p i slot h last = let z : i + 0 ≡ i = omega arith in (rw (← z) last, tt)
Stand-snoc (x ∷ ps) p i slot (here, there) last =
    let z : i + suc (length ps) ≡ i + 1 + length ps = omega arith in
    (here, Stand-snoc ps p (i + 1) slot there (rw (← z) last))

-- An array of 20 slots, the first a null pointer and the members behind it.
pub record Holds (ps : List Ptr) (s : Slots) : Type 0 where
  pub size : length s.slot ≡ max_slots
  pub counted : s.count ≡ length ps
  pub first : get_elem? s.slot 0 ≡ some none
  pub members : Stand ps 1 s.slot

pub add-Holds :
    (ps : List Ptr) (p : Ptr) (s : Slots)
    → Holds ps s
    → length ps < 18
    → (s' : Slots) × (add p s ≡ done s') × Holds (ps ++ p ∷ []) s'
unfolding add write_slot
add-Holds ps p s h few =
    let c = s.count in
    let counted = h.counted in
    let size = h.size in
    let slot₁ = set s.slot (c + 1) (some p) in
    let len = length-set s.slot (c + 1) (some p) in
    let at : c + 1 < length s.slot = omega arith in
    let behind : c + 1 + 1 < length slot₁ = omega (arith, len) in
    let slot₂ = set slot₁ (c + 1 + 1) none in
    let apart : c + 1 + 1 ≢ c + 1 = omega arith in
    let zero_apart : c + 1 ≢ 0 = omega arith in
    let zero_apart' : c + 1 + 1 ≢ 0 = omega arith in
    let old : Stand ps 1 slot₂ =
      Stand-set ps 1 (c + 1 + 1) none slot₁ (omega arith)
        (Stand-set ps 1 (c + 1) (some p) s.slot (omega arith) h.members) in
    let place : 1 + length ps ≡ c + 1 = omega arith in
    (
      record s { count = c + 1; slot = slot₂ },
      ground (arith, len, at, behind),
      record {
        size = length-set slot₁ (c + 1 + 1) none ∙ len ∙ size;
        counted = omega (arith, length-append ps (p ∷ []));
        first =
            get_elem?-set_ne slot₁ none zero_apart'
            ∙ get_elem?-set_ne s.slot (some p) zero_apart
            ∙ h.first;
        members = Stand-snoc ps p 1 slot₂ old (
            rw place
              (get_elem?-set_ne slot₁ none apart ∙ get_elem?-set_self s.slot (c + 1) (some p) at));
      },
    )

free_channels-Stand :
    (ps : List Ptr) (i : ℕ) (slot : List (Option Ptr))
    → Stand ps i slot
    → free_channels (length ps) i slot ≡ done ps
unfolding free_channels Stand free
free_channels-Stand [] i slot h = refl
free_channels-Stand (p ∷ ps) i slot (here, there) =
    let rest = free_channels-Stand ps (i + 1) slot there in rw (here, rest, free_channels) refl

add_all-Holds :
    (qs ps : List Ptr) (s : Slots)
    → Holds ps s
    → length ps + length qs ≤ 18
    → (s' : Slots) × (add_all qs s ≡ done s') × Holds (ps ++ qs) s'
unfolding add_all
add_all-Holds [] ps s h le = (s, refl, rw append-nil h)
add_all-Holds (q ∷ qs) ps s h le =
    let (s₁, one, h₁) = add-Holds ps q s h (omega arith) in
    let (s₂, more, h₂) =
      add_all-Holds qs (ps ++ q ∷ []) s₁ h₁ (omega (arith, le, length-append ps (q ∷ []))) in
    (s₂, rw one more, rw (← append_assoc ps (q ∷ []) qs) h₂)

pub created-Holds : (left : List (Option Ptr)) → length left ≡ 19 → Holds [] (created left)
unfolding created Stand
created-Holds left size = record {
  size = omega (arith, size);
  counted = refl;
  first = refl;
  members = tt;
}

Stand-init :
    (qs : List Ptr) (p : Ptr) (i : ℕ) (slot : List (Option Ptr))
    → Stand (qs ++ p ∷ []) i slot
    → Stand qs i slot
unfolding Stand
Stand-init [] p i slot h = tt
Stand-init (q ∷ qs) p i slot (here, there) = (here, Stand-init qs p (i + 1) slot there)

-- A module is created and channels are added to it, one at least and 18 at most: deleting it frees
-- the channels in their order but for the last one, which nothing frees, and then the module.
pub delete_modul-leaks :
    (qs : List Ptr) (p m : Ptr) (left : List (Option Ptr))
    → length left ≡ 19
    → length qs < 18
    → (s : Slots) × (create true left ≡ some (created left))
      × (add_all (qs ++ p ∷ []) (created left) ≡ done s)
      × (s.count ≡ length qs + 1)
      × (delete_modul m s ≡ done (qs ++ m ∷ []))
unfolding delete_modul free create free_channels
delete_modul-leaks qs p m left size few =
    let more = length-append qs (p ∷ []) in
    let (s, added, h) =
      add_all-Holds (qs ++ p ∷ []) [] (created left) (created-Holds left size)
        (omega (arith, more, few)) in
    let counted : s.count ≡ suc (length qs) = omega (arith, more, h.counted) in
    let freed = free_channels-Stand qs 1 s.slot (Stand-init qs p 1 s.slot h.members) in
    (s, refl, added, omega (arith, counted), rw (counted, h.first, freed, free_channels) refl)

-- A device with a module that was added to it cannot be deleted: the loop starts at the first slot,
-- which is a null pointer.
pub delete_device-null :
    (moduls : Ptr → Slots) (qs : List Ptr) (p d : Ptr) (left : List (Option Ptr))
    → length left ≡ 19
    → length qs < 18
    → (s : Slots) × (add_all (qs ++ p ∷ []) (created left) ≡ done s)
      × (delete_device moduls d s ≡ fault)
unfolding delete_device free_moduls
delete_device-null moduls qs p d left size few =
    let more = length-append qs (p ∷ []) in
    let (s, added, h) =
      add_all-Holds (qs ++ p ∷ []) [] (created left) (created-Holds left size)
        (omega (arith, more, few)) in
    let counted : s.count ≡ suc (length qs) = omega (arith, more, h.counted) in
    (s, added, rw (counted, h.first, free_moduls) refl)
