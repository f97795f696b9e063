-- ===== src/Lbus/Queue/Adding.antt =====
-- `lbus_add` appends.
use lielas.Base.{
  ℕ, zero, suc, ◌<◌, ◌≡◌, refl, ap, ◌∙◌, sym, Bool, false, none, some, List, [], ◌∷◌, ◌++◌, ◌==◌,
  arith, All, done, append_assoc, length, ==_iff, if◌then◌else◌, ◌≢◌, Option-cases,
}
use lielas.Lbus.Queue.{
  Ptr, Cmd, Node, Bus, find_node, store, get_first_cmd, get_next_cmd, move_to, walk_to_last,
  save_cmd, add, start,
}

-- No two containers have one address.
abbrev pub IsDistinct : List Node → Type 0
IsDistinct [] = Unit
IsDistinct (n ∷ ns) = All (λ m. (n.con == m.con) ≡ false) ns × IsDistinct ns

All-at :
    (a : Ptr) (before ns : List Node) (n : Node)
    → All (λ m. (a == m.con) ≡ false) (before ++ n ∷ ns)
    → (a == n.con) ≡ false
All-at a [] ns n h = h.0
All-at a (b ∷ before) ns n h = All-at a before ns n h.1

find_node-here :
    (before ns : List Node) (n : Node)
    → IsDistinct (before ++ n ∷ ns)
    → find_node n.con (before ++ n ∷ ns) ≡ some (n, ns)
unfolding find_node
find_node-here [] ns n h = rw ((==_iff n.con n.con).1 refl)
find_node-here (b ∷ before) ns n h =
    rw (All-at b.con before ns n h.0) (find_node-here before ns n h.1)

-- The address of the last container.
abbrev pub last_con : Node → List Node → Ptr
last_con n [] = n.con
last_con n (m ∷ ms) = last_con m ms

module _ {Time : Type 0} where
  -- From a container of the chain the walk ends at the last one, in as many rounds as are left.
  walk_to_last-last :
      (fuel : ℕ) (before ns : List Node) (n : Node) (s : Bus Time)
      → s.chain ≡ before ++ n ∷ ns
      → IsDistinct (before ++ n ∷ ns)
      → s.cursor ≡ some n.con
      → length ns < fuel
      → walk_to_last fuel s ≡ done (record s { cursor = some (last_con n ns) })
  unfolding walk_to_last get_next_cmd move_to
  walk_to_last-last zero before ns n s chain distinct cursor enough = absurd (omega arith)
  walk_to_last-last (suc fuel) before [] n s chain distinct cursor enough =
      ground (arith, find_node-here before [] n distinct)
  walk_to_last-last (suc fuel) before (m ∷ ns) n s chain distinct cursor enough =
      let found = find_node-here before (m ∷ ns) n distinct in
      let found' : find_node n.con s.chain ≡ some (n, m ∷ ns) =
        ap (find_node n.con) chain ∙ found in
      let split = append_assoc before (n ∷ []) (m ∷ ns) in
      let later =
        walk_to_last-last fuel (before ++ n ∷ []) ns m (record s { cursor = some m.con })
          (chain ∙ sym split) (rw split distinct) refl (omega arith) in
      let (a, more, e) = chain-cons s.chain before n (m ∷ ns) chain in
      ground (arith, found', later, e)
    where
      chain-cons :
          (l before : List Node) (n : Node) (ns : List Node)
          → l ≡ before ++ n ∷ ns
          → (a : Node) × (more : List Node) × (l ≡ a ∷ more)
      chain-cons l [] n ns e = (n, ns, e)
      chain-cons l (b ∷ before) n ns e = (b, before ++ n ∷ ns, e)

  -- With both allocations successful, a command added to a chain of distinct containers whose first
  -- holds a command goes behind all others: the chain gets one container at its end, the cursor
  -- stands on it, the command is stored at its address and, if asked for, saved.
  pub add-append :
      (p q : Ptr) (n : Node) (ns : List Node) (c : Cmd Time) (save : Bool) (s : Bus Time)
      → s.chain ≡ n ∷ ns
      → IsDistinct (n ∷ ns)
      → n.lcmd ≢ none
      → (s' : Bus Time) × (add (some p) (some q) c save s ≡ done (false, s'))
        × (s'.chain ≡ s.chain ++ (record { con = q; lcmd = some p } ∷ []))
        × (s'.cursor ≡ some q)
        × (s'.cmds p ≡ some c)
        × (s'.saved ≡ (if save then s.saved ++ c ∷ [] else s.saved))
  unfolding add get_first_cmd store save_cmd
  add-append p q n ns c save s chain distinct first =
      let s₀ : Bus Time = record s { cursor = some n.con } in
      let walked =
        walk_to_last-last (length s.chain) [] ns n s₀ chain distinct refl (ground (arith)) in
      let s₁ : Bus Time = record s₀ { cursor = some (last_con n ns) } in
      let s₂ : Bus Time = record s₁ {
        chain = s.chain ++ (record { con = q; lcmd = some p } ∷ []);
        cursor = some q;
      } in
      let s₃ : Bus Time = store p (some c) s₂ in
      let same = (==_iff p p).1 refl in
      (
        (if save then save_cmd c s₃ else s₃),
        ground (arith, walked, chain, first, Option-cases n.lcmd),
        ground (arith),
        ground (arith),
        ground (arith, same),
        ground (arith),
      )

  -- On a bus that was just started, two commands that are added, at different addresses and with a
  -- container of its own for the second, are what the cursor then visits, in their order.
  pub get_next_cmd-add :
      (q p₁ p₂ q₂ : Ptr) (c₁ c₂ : Cmd Time) (save : Bool) (s : Bus Time)
      → (q == q₂) ≡ false
      → (p₁ == p₂) ≡ false
      → let (_, s₀) = start (some q) false s in
        (s₁ s₂ s₃ : Bus Time) × (add (some p₁) none c₁ save s₀ ≡ done (false, s₁))
        × (add (some p₂) (some q₂) c₂ save s₁ ≡ done (false, s₂))
        × ((get_first_cmd s₂).0 ≡ some p₁)
        × (get_next_cmd (get_first_cmd s₂).1 ≡ done (some p₂, s₃))
        × (s₃.cmds p₁ ≡ some c₁)
        × (s₃.cmds p₂ ≡ some c₂)
  unfolding start add get_first_cmd get_next_cmd move_to walk_to_last find_node store save_cmd
  get_next_cmd-add q p₁ p₂ q₂ c₁ c₂ save s apart apart' =
      let first : Node = record { con = q; lcmd = some p₁ } in
      let second : Node = record { con = q₂; lcmd = some p₂ } in
      let same = (==_iff q q).1 refl in
      let same₁ = (==_iff p₁ p₁).1 refl in
      let same₂ = (==_iff p₂ p₂).1 refl in
      let s₀ = (start (some q) false s).1 in
      let stored₁ = store p₁ (some c₁) (record s₀ { chain = first ∷ [] }) in
      let s₁ = if save then save_cmd c₁ stored₁ else stored₁ in
      let stored₂ =
        store p₂ (some c₂) (record s₁ { chain = first ∷ second ∷ []; cursor = some q₂ }) in
      let s₂ = if save then save_cmd c₂ stored₂ else stored₂ in
      (
        s₁,
        s₂,
        record s₂ { cursor = some q₂ },
        ground (arith, same),
        ground (arith, same, apart),
        ground (arith, same),
        ground (arith, same, apart),
        ground (arith, same₁, apart'),
        ground (arith, same₂),
      )
