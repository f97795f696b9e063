-- ===== src/Rtc/I2c.antt =====
-- liegw/src/rtc/a10i2c.c: bytes read and written by running the tools i2cget and i2cset.
use lielas.Base.{
  ℕ, zero, suc, ◌+◌, Bool, true, false, Option, none, some, [], ◌∷◌, Bytes, ◌==◌, if◌then◌else◌,
  set,
}

-- What one run of a tool does to the chip. `none` is a `popen` that fails, and then no tool ran.
-- `i2cget` may print nothing, which leaves the cell of the buffer as it was.
pub record Tools : Type 1 where
  pub Wire : Type 0
  pub i2cset_select : (nr adr reg : ℕ) → Wire → Option Wire
  pub i2cset_write : (nr adr reg value : ℕ) → Wire → Option Wire
  pub i2cget : (nr adr : ℕ) → Wire → Option (Option ℕ × Wire)

-- `i2c_adr` and `i2c_nr`, with what the tools reach.
pub record I2c (Wire : Type 0) : Type 0 where
  pub i2c_adr : ℕ
  pub i2c_nr : ℕ
  pub wire : Wire

unfoldable pub i2c_init : {Wire : Type 0} → ℕ → ℕ → I2c Wire → I2c Wire
i2c_init address i2c s = record s { i2c_adr = address; i2c_nr = i2c }

module _ (t : Tools) where
  open t use {Wire, i2cset_select, i2cset_write, i2cget}

  -- The rounds of the loop of `i2c_read`: `len` rounds are left, and `i` is the next cell.
  -- The Boolean is true where the C function returns -1.
  unfoldable pub read_loop : ℕ → ℕ → Bytes → I2c Wire → Bool × Bytes × I2c Wire
  read_loop zero i buf s = (false, buf, s)
  read_loop (suc len) i buf s = elim (i2cget s.i2c_nr s.i2c_adr s.wire) [
    | none ↦ (true, buf, s)
    | some (got, w) ↦
        read_loop len (i + 1) (elim got [ none ↦ buf | some b ↦ set buf i b ])
          (record s { wire = w })
  ]

  unfoldable pub i2c_read : Bytes → ℕ → I2c Wire → Bool × Bytes × I2c Wire
  i2c_read buf len s =
      if s.i2c_adr == 0
      then (true, buf, s)
      else if s.i2c_nr == 0
      then (true, buf, s)
      else read_loop len 0 buf s

  unfoldable pub write_loop : ℕ → Bytes → I2c Wire → Bool × I2c Wire
  write_loop adr [] s = (false, s)
  write_loop adr (b ∷ buf) s = elim (i2cset_write s.i2c_nr s.i2c_adr adr b s.wire) [
    | none ↦ (true, s)
    | some w ↦ write_loop (adr + 1) buf (record s { wire = w })
  ]

  unfoldable pub select : ℕ → I2c Wire → Bool × I2c Wire
  select adr s = elim (i2cset_select s.i2c_nr s.i2c_adr adr s.wire) [
    | none ↦ (true, s)
    | some w ↦ (false, record s { wire = w })
  ]

  -- `buf` is the first `len` bytes of the buffer; with none, only the register is selected.
  unfoldable pub i2c_writeb : ℕ → Bytes → I2c Wire → Bool × I2c Wire
  i2c_writeb adr buf s =
      if s.i2c_adr == 0
      then (true, s)
      else if s.i2c_nr == 0
      then (true, s)
      else elim buf [ [] ↦ select adr s | b ∷ rest ↦ write_loop adr (b ∷ rest) s ]
