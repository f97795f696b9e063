-- ===== src/Device/Container/Cursor/Rounds.antt =====
-- The devices are chosen in turn.
use lielas.Base.{
  ap, sym, ◌∙◌, append-nil, ◌≡◌, refl, false, some, List, [], ◌∷◌, ◌++◌, ◌==◌, done, arith, All,
  ==_iff, append_assoc,
}
use mathlib.Core.Path.{subst}
use lielas.Device.Slots.{Ptr}
use lielas.Device.Container.{holds}
use lielas.Device.Container.Cursor.{
  Cursor, get_first_device, get_next_device, step_to, walk_to, skip_to, choose_device,
}

-- No device stands twice in the list.
abbrev pub AreDistinct : List Ptr → Type 0
AreDistinct [] = Unit
AreDistinct (d ∷ ds) = All (λ e. (d == e) ≡ false) ds × AreDistinct ds

walk_to-split :
    (before : List Ptr) (d : Ptr) (ds : List Ptr)
    → All (λ e. (e == d) ≡ false) before
    → walk_to d (before ++ d ∷ ds) ≡ some (d ∷ ds)
unfolding walk_to
walk_to-split [] d ds h = ground (arith, (==_iff d d).1 refl)
walk_to-split (e ∷ before) d ds h = ground (arith, h.0, walk_to-split before d ds h.1)

-- The device behind `d` is chosen after it.
pub choose_device-next :
    (f : Ptr) (rest before : List Ptr) (d e : Ptr) (ds : List Ptr) (c : Cursor)
    → f ∷ rest ≡ before ++ d ∷ e ∷ ds
    → All (λ x. (x == d) ≡ false) before
    → choose_device (some d) (holds f rest) c ≡ done (some e, some (e ∷ ds))
unfolding choose_device get_first_device get_next_device skip_to step_to
choose_device-next f rest before d e ds c split other =
    rw (split, walk_to-split before d (e ∷ ds) other) refl

-- The first device is chosen after the last one.
pub choose_device-wraps :
    (f : Ptr) (rest before : List Ptr) (d : Ptr) (c : Cursor)
    → f ∷ rest ≡ before ++ d ∷ []
    → All (λ x. (x == d) ≡ false) before
    → choose_device (some d) (holds f rest) c ≡ done (some f, some (f ∷ rest))
unfolding choose_device get_first_device get_next_device skip_to step_to
choose_device-wraps f rest before d c split other =
    let w : walk_to d (f ∷ rest) ≡ some (d ∷ []) = rw split (walk_to-split before d [] other) in
    rw w refl

All-middle :
    (P : Ptr → Type 0) (before : List Ptr) (d : Ptr) (ds : List Ptr)
    → All P (before ++ d ∷ ds)
    → P d
All-middle P [] d ds h = h.0
All-middle P (e ∷ before) d ds h = All-middle P before d ds h.1

-- The devices before one that stands in a list of distinct devices are others.
pub AreDistinct-before :
    (before : List Ptr) (d : Ptr) (ds : List Ptr)
    → AreDistinct (before ++ d ∷ ds)
    → All (λ e. (e == d) ≡ false) before
AreDistinct-before [] d ds h = tt
AreDistinct-before (e ∷ before) d ds h =
    (All-middle (λ x. (e == x) ≡ false) before d ds h.0, AreDistinct-before before d ds h.1)

-- `e` is chosen after `d`: it stands behind it, or it is the first device and `d` the last one.
pub data Follows (f : Ptr) (rest : List Ptr) : Ptr → Ptr → Type 0 where
  behind : {d e : Ptr} (before ds : List Ptr) → f ∷ rest ≡ before ++ d ∷ e ∷ ds → Follows f rest d e
  wrapped : {d : Ptr} (before : List Ptr) → f ∷ rest ≡ before ++ d ∷ [] → Follows f rest d f

-- Each device of the list follows the one before it, the first one follows `d`.
pub data Chain (f : Ptr) (rest : List Ptr) : Ptr → List Ptr → Type 0 where
  ended : {d : Ptr} → Chain f rest d []
  step :
      {d e : Ptr} {es : List Ptr} → Follows f rest d e → Chain f rest e es → Chain f rest d (e ∷ es)

pub choose_device-Follows :
    (f : Ptr) (rest : List Ptr) (d e : Ptr) (c : Cursor)
    → AreDistinct (f ∷ rest)
    → Follows f rest d e
    → (es : List Ptr) × (choose_device (some d) (holds f rest) c ≡ done (some e, some (e ∷ es)))
choose_device-Follows f rest d e c distinct (behind before ds split) = (
  ds,
  choose_device-next f rest before d e ds c split
      (AreDistinct-before before d (e ∷ ds) (subst AreDistinct split distinct)),
)
choose_device-Follows f rest d _ c distinct (wrapped before split) = (
  rest,
  choose_device-wraps f rest before d c split
      (AreDistinct-before before d [] (subst AreDistinct split distinct)),
)

abbrev last_of : Ptr → List Ptr → Ptr
last_of d [] = d
last_of d (e ∷ es) = last_of e es

last_of-split :
    (d : Ptr) (es : List Ptr) → (before : List Ptr) × (d ∷ es ≡ before ++ last_of d es ∷ [])
last_of-split d [] = ([], refl)
last_of-split d (e ∷ es) =
    let (before, split) = last_of-split e es in (d ∷ before, ap (λ l. d ∷ l) split)

Chain-forward :
    (f : Ptr) (rest before : List Ptr) (d : Ptr) (ds more tail : List Ptr)
    → f ∷ rest ≡ before ++ d ∷ (ds ++ more)
    → Chain f rest (last_of d ds) tail
    → Chain f rest d (ds ++ tail)
Chain-forward f rest before d [] more tail split h = h
Chain-forward f rest before d (e ∷ ds) more tail split h = step (behind before (ds ++ more) split) (
    Chain-forward f rest (before ++ d ∷ []) e ds more tail
      (split ∙ sym (append_assoc before (d ∷ []) (e ∷ ds ++ more))) h)

-- The first device follows the last one.
Chain-wrap :
    (f : Ptr) (rest xs : List Ptr) (d : Ptr) (ys : List Ptr) (e : Ptr) (tail es : List Ptr)
    → f ∷ rest ≡ xs ++ d ∷ ys
    → f ∷ rest ≡ e ∷ es
    → Chain f rest e tail
    → Chain f rest (last_of d ys) (e ∷ tail)
Chain-wrap f rest xs d ys e tail es split first h =
    let (before, at_end) = last_of-split d ys in
    let ends : f ∷ rest ≡ (xs ++ before) ++ last_of d ys ∷ [] =
      split ∙ ap (λ l. xs ++ l) at_end ∙ sym (append_assoc xs before (last_of d ys ∷ [])) in
    let same : f ≡ e = ap (λ (l : List Ptr). elim l [ [] ↦ f | x ∷ _ ↦ x ]) first in
    step (subst (λ x. Follows f rest (last_of d ys) x) same (wrapped (xs ++ before) ends)) h

-- A full round from any device of the list.
pub Chain-round :
    (f : Ptr) (rest xs : List Ptr) (d : Ptr) (ys : List Ptr)
    → f ∷ rest ≡ xs ++ d ∷ ys
    → Chain f rest d (ys ++ (xs ++ d ∷ []))
Chain-round f rest [] d ys split =
    Chain-forward f rest [] d ys [] (d ∷ []) (split ∙ ap (λ l. d ∷ l) (sym (append-nil ys)))
      (Chain-wrap f rest [] d ys d [] ys split split ended)
Chain-round f rest (x ∷ xs) d ys split =
    let again : f ∷ rest ≡ x ∷ ((xs ++ d ∷ []) ++ ys) =
      split ∙ ap (λ l. x ∷ l) (sym (append_assoc xs (d ∷ []) ys)) in
    let on : Chain f rest x (xs ++ d ∷ []) =
      subst (λ l. Chain f rest x l) (append-nil (xs ++ d ∷ []))
        (Chain-forward f rest [] x (xs ++ d ∷ []) ys [] again ended) in
    Chain-forward f rest (x ∷ xs) d ys [] (x ∷ (xs ++ d ∷ []))
      (split ∙ ap (λ l. x ∷ (xs ++ d ∷ l)) (sym (append-nil ys)))
      (Chain-wrap f rest (x ∷ xs) d ys x (xs ++ d ∷ []) ((xs ++ d ∷ []) ++ ys) split again on)
