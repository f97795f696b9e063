-- ===== src/Device/Container/Links.antt =====
-- The containers of liegw/src/lielas/devicecontainer.c with their pointers: `LDCadd` and
-- `LDCremove` as they read and write `ldc` and `ndc` of the containers in memory.
pub mod Chain
pub mod Unlinking
pub mod Appending
pub mod Removing
use lielas.Base.{
  ℕ, zero, suc, Bool, true, false, ◌&&◌, not, Option, none, some, ◌==◌, if◌then◌else◌, Run, done,
  fault, out_of_fuel, ◌>>=◌,
}
use lielas.Device.Slots.{Ptr}
use lielas.Device.Container.{Removal, removed, uninitialized, not_found}

-- `struct Ldc_struct`
pub record Con : Type 0 where
  pub d : Option Ptr
  pub ldc : Option Ptr
  pub ndc : Option Ptr

-- The containers in memory, none where there is none or it was freed, and `deviceContainer`.
pub record Links : Type 0 where
  pub con : Ptr → Option Con
  pub first : Option Ptr

-- `*p = c`, or `free(p)` with `none`.
unfoldable pub store_con : Ptr → Option Con → Links → Links
store_con p c s = record s { con = λ q. if q == p then c else s.con q }

unfoldable pub read_con : Option Ptr → Links → Run Con
read_con none s = fault
read_con (some p) s = elim (s.con p) [ none ↦ fault | some c ↦ done c ]

-- `p->ldc = q`
unfoldable pub write_ldc : Option Ptr → Option Ptr → Links → Run Links
write_ldc none q s = fault
write_ldc (some p) q s = elim (s.con p) [
  | none ↦ fault
  | some c ↦ done (store_con p (some (record c { ldc = q })) s)
]

-- `p->ndc = q`
unfoldable pub write_ndc : Option Ptr → Option Ptr → Links → Run Links
write_ndc none q s = fault
write_ndc (some p) q s = elim (s.con p) [
  | none ↦ fault
  | some c ↦ done (store_con p (some (record c { ndc = q })) s)
]

unfoldable pub has_device : Ptr → Con → Bool
has_device d c = elim c.d [ none ↦ false | some x ↦ x == d ]

-- `while(dc->ndc != NULL && !stop(dc)) dc = dc->ndc;`
unfoldable pub walk : (Con → Bool) → ℕ → Ptr → Links → Run Ptr
walk stop zero p s = out_of_fuel
walk stop (suc fuel) p s = read_con (some p) s >>= λ c. elim c.ndc [
  | none ↦ done p
  | some q ↦ let later = walk stop fuel q s in if stop c then done p else later
]

-- A new container behind the last one. `new_dc` is what `malloc` returns.
unfoldable pub append_container : (new_dc : Option Ptr) → Ptr → Ptr → Links → Run (Bool × Links)
append_container none d p s = done (true, s)
append_container (some q) d p s =
    let made = store_con q (some (record { d = some d; ldc = some p; ndc = none })) s in
    write_ndc (some p) (some q) made >>= λ s'. done (false, s')

-- `LDCadd`. True where the C function returns -1.
unfoldable pub ldc_add : ℕ → (new_dc : Option Ptr) → Ptr → Links → Run (Bool × Links)
ldc_add fuel new_dc d s = elim s.first [
  | none ↦ done (true, s)
  | some p ↦ read_con (some p) s >>= λ c. elim c.ndc [
    | some _ ↦ walk (λ _. false) fuel p s >>= λ last. append_container new_dc d last s
    | none ↦ elim c.ldc [
      | some _ ↦ append_container new_dc d p s
      | none ↦ done (false, store_con p (some (record c { d = some d; ldc = some p })) s)
    ]
  ]
]

-- `deviceContainer = dc`, where `dc` is the container behind the first one, which was freed.
unfoldable pub make_first : Option Ptr → Links → Run Links
make_first none s = done (record s { first = none })
make_first (some q) s = write_ldc (some q) (some q) (record s { first = some q })

-- The container at an address goes, and those beside it are linked with each other.
unfoldable pub ldc_unlink : Ptr → Con → Links → Run Links
ldc_unlink p c s = elim c.ndc [
  | none ↦ write_ndc c.ldc none s >>= λ s₁. done (store_con p none s₁)
  | some q ↦ write_ndc c.ldc (some q) s >>= λ s₁.
      read_con (some p) s₁ >>= λ c₁. write_ldc c₁.ndc c₁.ldc s₁ >>= λ s₂. done (store_con p none s₂)
]

-- `LDCremove`
unfoldable pub ldc_remove : ℕ → Ptr → Links → Run (Removal × Links)
ldc_remove fuel d s = elim s.first [
  | none ↦ done (uninitialized, s)
  | some p ↦ walk (has_device d) fuel p s >>= λ q. read_con (some q) s >>= λ c.
      let unlinked =
        (if q == p then make_first c.ndc (store_con p none s) else ldc_unlink q c s) >>= λ s'.
        done (removed, s') in
      if not (has_device d c) then done (not_found, s) else unlinked
]
