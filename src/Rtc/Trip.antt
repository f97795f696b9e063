-- ===== src/Rtc/Trip.antt =====
-- Setting the clock chip and reading it back.
use lielas.Base.{
  ℕ, ◌+◌, ◌≤◌, ◌<◌, ◌≡◌, ap, ◌∙◌, false, some, arith, Bytes, ◌==◌, length, get_elem?, pos, sym,
}
use lielas.Tm.{Tm}
use lielas.Rtc.I2c.{Tools, I2c, i2c_read, i2c_writeb, select}
use lielas.Rtc.Chip.{
  encode, decode, Rtc4162, read_register, write_register, rtc4162_get, rtc4162_set,
}
use lielas.Rtc.Clock.{testdt}
use lielas.Rtc.Bcd.{decode-encode}
use lielas.Rtc.Transfer.{RegisterFile, write_loop_lem, read_loop_lem}

-- Two buffers that agree on the first eight cells decode alike.
decode_cong :
    (a b : Bytes) → ((j : ℕ) → j < 8 → get_elem? a j ≡ get_elem? b j) → decode a ≡ decode b
unfolding decode
decode_cong a b h = ground (
  arith,
  h 1 (omega arith),
  h 2 (omega arith),
  h 3 (omega arith),
  h 5 (omega arith),
  h 6 (omega arith),
  h 7 (omega arith),
)

-- The driver after `i2c_init`.
abbrev pub Ready : {Wire : Type 0} → I2c Wire → Type 0
Ready s = ((s.i2c_adr == 0) ≡ false) × ((s.i2c_nr == 0) ≡ false)

module _ (t : Tools) (file : RegisterFile t) where
  open file use {view, at_reg, select_ok}

  write_encode :
      (dt : Tm) (s : I2c t.Wire)
      → Ready s
      → (w' : t.Wire) × (write_register t 0 (encode dt) s ≡ (false, record s { wire = w' }))
        × ((j : ℕ) → j < 8 → get_elem? (encode dt) j ≡ some (view w' j))
  unfolding write_register i2c_writeb encode
  write_encode dt s ready =
      let (w', e, hit, _) = write_loop_lem t file 0 (encode dt) s in
      (
        w',
        rw (ready.0, ready.1) e,
        λ j h. hit j (omega arith) ∙ ap (λ k. some (view w' k)) (zero_add j),
      )
    where
      zero_add : (j : ℕ) → 0 + j ≡ j
      zero_add j = omega arith

  read_all :
      (buf : Bytes) (s : I2c t.Wire)
      → Ready s
      → 8 ≤ length buf
      → (w' : t.Wire) × (buf' : Bytes) × (read_register t 0 buf 8 s
          ≡ (false, buf', record s { wire = w' }))
        × ((j : ℕ) → j < 8 → get_elem? buf' j ≡ some (view s.wire j))
  unfolding read_register i2c_writeb i2c_read select
  read_all buf s ready fits =
      let (w₁, e₁, here, same) = select_ok s.i2c_nr s.i2c_adr 0 s.wire in
      let (w₂, buf', e₂, hit, _) =
        read_loop_lem t file 8 0 buf (record s { wire = w₁ }) here fits in
      (
        w₂,
        buf',
        rw (ready.0, ready.1, e₁, select) (rw (ready.0, ready.1) e₂),
        λ j h. hit j (omega arith) (omega arith) ∙ ap (λ v. some (v j)) same,
      )

  -- On a chip that answers and keeps its registers, with the I2C access set up, the oscillator flag
  -- clear and a buffer of eight cells at least, setting a time that passes `testdt` succeeds and
  -- reading gives the same time, with the day of the week, the day of the year and the daylight
  -- flag zero.
  pub rtc4162_get-set :
      (dt : Tm) (buf : Bytes) (r : Rtc4162 t.Wire)
      → Ready r.i2c
      → r.oscfailed ≡ false
      → testdt dt ≡ false
      → 8 ≤ length buf
      → ((rtc4162_set t dt r).0 ≡ false)
        × ((rtc4162_get t buf (rtc4162_set t dt r).1).0
            ≡ some (record dt { tm_wday = pos 0; tm_yday = pos 0; tm_isdst = pos 0 }))
  unfolding rtc4162_set rtc4162_get
  rtc4162_get-set dt buf r ready osc valid fits =
      let (w₁, e₁, held) = write_encode dt r.i2c ready in
      let (w₂, buf', e₂, hit) = read_all buf (record r.i2c { wire = w₁ }) ready fits in
      let same = decode_cong buf' (encode dt) (λ j h. hit j h ∙ sym (held j h)) in
      let back = same ∙ decode-encode dt valid in (ground (arith, e₁), ground (arith, e₁, e₂, back))
