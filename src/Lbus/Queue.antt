-- ===== src/Lbus/Queue.antt =====
-- The container of pending commands of lbus.c. The chain of containers is the list of its nodes in
-- their order, each with its address; a container or command that was freed has no node or no
-- entry, and reading it is a fault. The chain is empty where `lbuscon` is a null pointer.
pub mod Removal
pub mod Adding
use lielas.Base.{
  ℕ, zero, suc, Bool, true, false, Option, none, some, List, [], ◌∷◌, ◌++◌, Bytes, ◌==◌,
  if◌then◌else◌, length, Run, done, fault, out_of_fuel, ◌>>=◌,
}

-- An address.
abbrev pub Ptr : Type 0
Ptr = ℕ

-- `Time` is the broken-down time of the C library.
pub record Cmd (Time : Type 0) : Type 0 where
  pub id : ℕ
  pub tmrecv : Time
  pub address : Bytes
  pub user : Bytes
  pub cmd : Bytes
  pub payload : Bytes
  pub handled : Bool
  pub tmnexthandle : Option Time
  pub tmhandled : Option Time

pub record Node : Type 0 where
  pub con : Ptr
  pub lcmd : Option Ptr

-- `lbuscon`, `lbusconPtr`, the live commands, the rows that were saved, and `netTypeChanged`.
pub record Bus (Time : Type 0) : Type 0 where
  pub chain : List Node
  pub cursor : Option Ptr
  pub cmds : Ptr → Option (Cmd Time)
  pub saved : List (Cmd Time)
  pub net_type_changed : Bool

-- The node at an address, with the nodes behind it.
unfoldable pub find_node : Ptr → List Node → Option (Node × List Node)
find_node p [] = none
find_node p (n ∷ ns) = if n.con == p then some (n, ns) else find_node p ns

unfoldable pub reverse_onto : List Node → List Node → List Node
reverse_onto [] ns = ns
reverse_onto (b ∷ before) ns = reverse_onto before (b ∷ ns)

module _ {Time : Type 0} where
  -- `*p = c`, or `free(p)` with `none`.
  unfoldable pub store : Ptr → Option (Cmd Time) → Bus Time → Bus Time
  store p c s = record s { cmds = λ q. if q == p then c else s.cmds q }

  -- `lbus_init`, where `new_con` is what `malloc` returns. True where the C function returns -1.
  unfoldable pub start : (new_con : Option Ptr) → (mutex_fails : Bool) → Bus Time → Bool × Bus Time
  start none mutex_fails s = (true, record s { chain = [] })
  start (some q) mutex_fails s =
      let first : Node = record { con = q; lcmd = none } in
      (mutex_fails, record s { chain = first ∷ []; cursor = some q; net_type_changed = true })

  unfoldable pub get_first_cmd : Bus Time → Option Ptr × Bus Time
  get_first_cmd s = elim s.chain [
    | [] ↦ (none, s)
    | n ∷ ns ↦ (n.lcmd, record s { cursor = some n.con })
  ]

  -- A node as the result of moving the cursor to it.
  unfoldable pub move_to : List Node → Bus Time → Option Ptr × Bus Time
  move_to [] s = (none, record s { cursor = none })
  move_to (n ∷ ns) s = (n.lcmd, record s { cursor = some n.con })

  unfoldable pub get_next_cmd : Bus Time → Run (Option Ptr × Bus Time)
  get_next_cmd s = elim s.chain [
    | [] ↦ done (none, s)
    | _ ∷ _ ↦ elim s.cursor [
      | none ↦ done (none, s)
      | some p ↦ elim (find_node p s.chain) [ none ↦ fault | some (n, ns) ↦ done (move_to ns s) ]
    ]
  ]

  -- `while(lbusconPtr->nlbc != NULL) lbus_getNextCmd();`
  unfoldable pub walk_to_last : ℕ → Bus Time → Run (Bus Time)
  walk_to_last zero s = out_of_fuel
  walk_to_last (suc fuel) s = elim s.cursor [
    | none ↦ fault
    | some p ↦ elim (find_node p s.chain) [
      | none ↦ fault
      | some (n, ns) ↦ elim ns [
        | [] ↦ done s
        | _ ∷ _ ↦ get_next_cmd s >>= λ (c, s'). walk_to_last fuel s'
      ]
    ]
  ]

  unfoldable pub save_cmd : Cmd Time → Bus Time → Bus Time
  save_cmd c s = record s { saved = s.saved ++ c ∷ [] }

  abbrev saved_if : Bool → Cmd Time → Bus Time → Bus Time
  saved_if save c s = if save then save_cmd c s else s

  -- `new_cmd` and `new_con` are what the two calls of `malloc` return. True where the C function
  -- returns -1.
  unfoldable pub add :
      (new_cmd new_con : Option Ptr) → Cmd Time → Bool → Bus Time → Run (Bool × Bus Time)
  add none new_con c save s = done (true, s)
  add (some p) new_con c save s = elim s.chain [
    | [] ↦ done (true, s)
    | n ∷ ns ↦
        let s₀ = (get_first_cmd s).1 in
        let rest =
          (walk_to_last (length s.chain) s₀ >>= λ s₁. elim new_con [
            | none ↦ done (true, s₁)
            | some q ↦
                let s₂ = record s₁ {
                  chain = s₁.chain ++ (record { con = q; lcmd = some p } ∷ []);
                  cursor = some q;
                } in
                done (false, saved_if save c (store p (some c) s₂))
          ]) in
        elim ns [
          | _ ∷ _ ↦ rest
          | [] ↦ elim n.lcmd [
            | some _ ↦ rest
            | none ↦
                let s₁ = record s₀ { chain = record n { lcmd = some p } ∷ [] } in
                done (false, saved_if save c (store p (some c) s₁))
          ]
        ]
  ]

  -- `lbus_deleteCmd`
  unfoldable pub delete_cmd : Ptr → Bus Time → Run (Bus Time)
  delete_cmd p s = elim (s.cmds p) [ none ↦ fault | some _ ↦ done (store p none s) ]

  -- The search of `lbus_remove` for the first command with the id: the nodes before it, in reverse,
  -- the address of its command, and the nodes behind.
  unfoldable pub search_id :
      (Ptr → Option (Cmd Time))
      → ℕ
      → List Node
      → List Node
      → Run (Option (List Node × Node × Ptr × List Node))
  search_id cmds id before [] = done none
  search_id cmds id before (n ∷ ns) = elim n.lcmd [
    | none ↦ fault
    | some q ↦ elim (cmds q) [
      | none ↦ fault
      | some c ↦
          let later = search_id cmds id (n ∷ before) ns in
          if c.id == id then done (some (before, n, q, ns)) else later
    ]
  ]

  -- The only node keeps its container. The first of several goes with its container, and its
  -- command is not freed. Another goes with its container and its command. The cursor stays as it
  -- is.
  unfoldable pub unlink : List Node × Node × Ptr × List Node → Bus Time → Run (Bus Time)
  unlink ([], n, q, []) s =
      delete_cmd q s >>= λ s'. done (record s' { chain = record n { lcmd = none } ∷ [] })
  unlink ([], n, q, m ∷ ns) s = done (record s { chain = m ∷ ns })
  unlink (b ∷ before, n, q, ns) s =
      delete_cmd q s >>= λ s'. done (record s' { chain = reverse_onto (b ∷ before) ns })

  unfoldable pub remove : Ptr → Bus Time → Run (Bus Time)
  remove p s = elim (s.cmds p) [
    | none ↦ fault
    | some c ↦ search_id s.cmds c.id [] s.chain >>= λ found. elim found [
      | none ↦ done s
      | some place ↦ unlink place s
    ]
  ]

  -- `setCmdHandled`: the command is marked, saved and removed.
  unfoldable pub set_cmd_handled : Time → Ptr → Bus Time → Run (Bus Time)
  set_cmd_handled now p s = elim (s.cmds p) [
    | none ↦ fault
    | some c ↦
        let c' = record c { handled = true; tmhandled = some now } in
        remove p (save_cmd c' (store p (some c') s))
  ]
