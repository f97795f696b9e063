-- ===== src/Rtc/Transfer.antt =====
-- Transfers to a chip that answers and keeps its registers: what the loops of a10i2c.c write and
-- read. The chip is not code of the repository, so its behaviour is a hypothesis.
use lielas.Base.{
  ℕ, zero, suc, ◌+◌, ◌≤◌, ◌<◌, ◌≡◌, refl, ap, ◌∙◌, false, some, [], ◌∷◌, arith, Bytes, ◌==◌,
  if◌then◌else◌, length, get_elem?, set, length-set, get_elem?-set_self, get_elem?-set_ne, ◌≢◌, ◌⊎◌,
  inl, inr,
}
use lielas.Rtc.I2c.{Tools, I2c, read_loop, write_loop}

-- `view` gives the registers and `at` the register that the next read returns. Every tool succeeds;
-- a read returns the register at the pointer and moves the pointer on, a write changes one
-- register.
pub record RegisterFile (t : Tools) : Type 0 where
  pub view : t.Wire → ℕ → ℕ
  pub at_reg : t.Wire → ℕ
  pub select_ok :
      (nr adr reg : ℕ) (w : t.Wire)
      → (w' : t.Wire) × (t.i2cset_select nr adr reg w ≡ some w')
        × (at_reg w' ≡ reg)
        × (view w' ≡ view w)
  pub write_ok :
      (nr adr reg v : ℕ) (w : t.Wire)
      → (w' : t.Wire) × (t.i2cset_write nr adr reg v w ≡ some w')
        × ((k : ℕ) → view w' k ≡ (if k == reg then v else view w k))
  pub read_ok :
      (nr adr : ℕ) (w : t.Wire)
      → (w' : t.Wire) × (t.i2cget nr adr w ≡ some (some (view w (at_reg w)), w'))
        × (at_reg w' ≡ at_reg w + 1)
        × (view w' ≡ view w)

==-split : (i j : ℕ) → (i ≡ j) ⊎ (i ≢ j)
==-split i j = omega arith

module _ (t : Tools) (file : RegisterFile t) where
  open file use {view, at_reg, select_ok, write_ok, read_ok}

  -- All bytes arrive, the first at register `adr`, and no register below `adr` changes.
  pub write_loop_lem :
      (adr : ℕ) (buf : Bytes) (s : I2c t.Wire)
      → (w' : t.Wire) × (write_loop t adr buf s ≡ (false, record s { wire = w' }))
        × ((j : ℕ) → j < length buf → get_elem? buf j ≡ some (view w' (adr + j)))
        × ((r : ℕ) → r < adr → view w' r ≡ view s.wire r)
  unfolding write_loop
  write_loop_lem adr [] s = (s.wire, refl, λ j h. absurd (omega arith), λ r h. refl)
  write_loop_lem adr (b ∷ buf) s =
      let (w₁, e₁, v₁) = write_ok s.i2c_nr s.i2c_adr adr b s.wire in
      let (w₂, e₂, hit, low) = write_loop_lem (adr + 1) buf (record s { wire = w₁ }) in
      (w₂, rw (e₁, write_loop) e₂, at_index w₁ w₂ v₁ hit low, below w₁ w₂ v₁ low)
    where
      at_index :
          (w₁ w₂ : t.Wire)
          → ((k : ℕ) → view w₁ k ≡ (if k == adr then b else view s.wire k))
          → ((j : ℕ) → j < length buf → get_elem? buf j ≡ some (view w₂ (adr + 1 + j)))
          → ((r : ℕ) → r < adr + 1 → view w₂ r ≡ view w₁ r)
          → (j : ℕ) → j < length (b ∷ buf)
          → get_elem? (b ∷ buf) j ≡ some (view w₂ (adr + j))
      at_index w₁ w₂ v₁ hit low zero h =
          let here : adr + 0 ≡ adr = omega arith in rw here (ground (arith, v₁ adr, low adr))
      at_index w₁ w₂ v₁ hit low (suc j) h =
          let shift : adr + suc j ≡ adr + 1 + j = omega arith in rw shift (hit j (omega arith))

      below :
          (w₁ w₂ : t.Wire)
          → ((k : ℕ) → view w₁ k ≡ (if k == adr then b else view s.wire k))
          → ((r : ℕ) → r < adr + 1 → view w₂ r ≡ view w₁ r)
          → (r : ℕ) → r < adr
          → view w₂ r ≡ view s.wire r
      below w₁ w₂ v₁ low r h = ground (arith, v₁ r, low r)

  -- The cells from `i` on hold the registers from `i` on, and the cells below are as they were.
  pub read_loop_lem :
      (len i : ℕ) (buf : Bytes) (s : I2c t.Wire)
      → at_reg s.wire ≡ i
      → i + len ≤ length buf
      → (w' : t.Wire) × (buf' : Bytes) × (read_loop t len i buf s
          ≡ (false, buf', record s { wire = w' }))
        × ((j : ℕ) → i ≤ j → j < i + len → get_elem? buf' j ≡ some (view s.wire j))
        × ((j : ℕ) → j < i → get_elem? buf' j ≡ get_elem? buf j)
  unfolding read_loop
  read_loop_lem zero i buf s here fits =
      (s.wire, buf, refl, λ j lo hi. absurd (omega arith), λ j h. refl)
  read_loop_lem (suc len) i buf s here fits =
      let (w₁, e₁, next, same) = read_ok s.i2c_nr s.i2c_adr s.wire in
      let b = view s.wire (at_reg s.wire) in
      let room : i + 1 + len ≤ length (set buf i b) = omega (arith, length-set buf i b) in
      let (w₂, buf', e₂, hit, low) =
        read_loop_lem len (i + 1) (set buf i b) (record s { wire = w₁ }) (omega arith) room in
      (
        w₂,
        buf',
        rw (e₁, read_loop) e₂,
        λ j lo hi. at_index b refl w₁ buf' same hit low j lo hi,
        λ j h. low j (omega arith) ∙ get_elem?-set_ne buf b (ne i j h),
      )
    where
      ne : (i j : ℕ) → j < i → i ≢ j
      ne i j h = omega arith

      at_index :
          (b : ℕ)
          → b ≡ view s.wire (at_reg s.wire)
          → (w₁ : t.Wire) (buf' : Bytes) → view w₁ ≡ view s.wire
          → ((j : ℕ) → i + 1 ≤ j → j < i + 1 + len → get_elem? buf' j ≡ some (view w₁ j))
          → ((j : ℕ) → j < i + 1 → get_elem? buf' j ≡ get_elem? (set buf i b) j)
          → (j : ℕ) → i ≤ j
          → j < i + suc len
          → get_elem? buf' j ≡ some (view s.wire j)
      at_index b eb w₁ buf' same hit low j lo hi = elim (==-split i j) [
        | inl e ↦
            low j (omega arith)
            ∙ rw (← e) (get_elem?-set_self buf i b (omega arith) ∙ ap some (rw eb (rw here refl)))
        | inr e ↦ hit j (omega arith) (omega arith) ∙ ap (λ v. some (v j)) same
      ]
