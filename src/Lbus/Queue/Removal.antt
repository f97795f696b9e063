-- ===== src/Lbus/Queue/Removal.antt =====
-- A command that is handled while the cursor stands on it.
use lielas.Base.{
  ◌≡◌, refl, true, false, none, some, List, [], ◌∷◌, ◌++◌, ◌==◌, arith, All, done, fault, ==_iff,
}
use lielas.Lbus.Queue.{
  Ptr, Cmd, Node, Bus, find_node, store, get_next_cmd, search_id, unlink, remove, save_cmd,
  set_cmd_handled,
}

find_node-other :
    (p : Ptr) (ns : List Node) → All (λ n. (n.con == p) ≡ false) ns → find_node p ns ≡ none
unfolding find_node
find_node-other p [] h = refl
find_node-other p (n ∷ ns) h = rw h.0 (find_node-other p ns h.1)

module _ {Time : Type 0} where
  -- Handling the first of several commands, while the cursor stands on its container and no other
  -- container has its address, saves it as handled and takes it off the chain; the next step of the
  -- cursor then reads the freed container.
  pub get_next_cmd_dangling :
      (now : Time) (p : Ptr) (n m : Node) (ns : List Node) (c : Cmd Time) (s : Bus Time)
      → s.chain ≡ n ∷ m ∷ ns
      → s.cursor ≡ some n.con
      → n.lcmd ≡ some p
      → s.cmds p ≡ some c
      → All (λ k. (k.con == n.con) ≡ false) (m ∷ ns)
      → (s' : Bus Time) × (set_cmd_handled now p s ≡ done s')
        × (s'.chain ≡ m ∷ ns)
        × (s'.saved ≡ s.saved ++ (record c { handled = true; tmhandled = some now } ∷ []))
        × (get_next_cmd s' ≡ fault)
  unfolding set_cmd_handled remove search_id unlink store save_cmd get_next_cmd
  get_next_cmd_dangling now p n m ns c s chain cursor first live apart =
      let c' : Cmd Time = record c { handled = true; tmhandled = some now } in
      let same = (==_iff p p).1 refl in
      let same_id = (==_iff c.id c.id).1 refl in
      let lost = find_node-other n.con (m ∷ ns) apart in
      (
        record (save_cmd c' (store p (some c') s)) { chain = m ∷ ns },
        ground (arith, same, same_id),
        refl,
        refl,
        ground (arith, lost),
      )
