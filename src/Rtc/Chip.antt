-- ===== src/Rtc/Chip.antt =====
-- liegw/src/rtc/rtc4162.c: the registers of the clock chip, in binary-coded decimal.
use Prim.Native.Nat.{bit_and, bit_or}
use lielas.Base.{
  ℕ, ◌+◌, ◌*◌, ◌/◌, ◌%◌, Bool, true, false, ◌||◌, Option, none, some, [], ◌∷◌, Bytes, ◌==◌, ltb,
  if◌then◌else◌, length, get_elem?, set, ℤ, pos, negsuc, wrap, ◌-◌,
}
use lielas.Tm.{Tm}
use lielas.Rtc.I2c.{Tools, I2c, i2c_init, i2c_read, i2c_writeb}

-- `BCD2BYTE`, of a byte.
unfoldable pub bcd2byte : ℕ → ℕ
bcd2byte x = x / 16 % 16 * 10 + x % 16

-- `BYTE2BCD`, of an `int`, modulo 256: only the low byte of the result is used. `/` and `%` of C
-- round towards zero, so a negative number gives the negated result.
unfoldable pub byte2bcd : ℤ → ℕ
byte2bcd (pos x) = (x / 10 % 16 * 16 + x % 10) % 256
byte2bcd (negsuc x) = ((16 - (x + 1) / 10 % 16) % 16 * 16 + (256 - (x + 1) % 10)) % 256

-- The first `len` bytes of a buffer, as `rtc4162_set` fills it: registers 0 to 7. The masks of
-- `RTC4162_MASK_…` keep the low 7, 7, 6, 6, 5 and 8 bits; the complement of a mask meets a zero.
unfoldable pub encode : Tm → Bytes
unfolding byte2bcd
encode dt =
    0
    ∷ byte2bcd dt.tm_sec % 128
    ∷ byte2bcd dt.tm_min % 128
    ∷ byte2bcd dt.tm_hour % 64
    ∷ 0
    ∷ byte2bcd dt.tm_mday % 64
    ∷ byte2bcd dt.tm_mon % 32
    ∷ byte2bcd (pos (year_byte dt.tm_year)) % 256
    ∷ []
  where
    -- `(uint8_t)(dt->tm_year - RTC4162_YEAR_OFFSET)`
    year_byte : ℤ → ℕ
    year_byte y = (wrap 256 y + 256 - 100) % 256

abbrev byte_at : Bytes → ℕ → ℕ
byte_at buf i = elim (get_elem? buf i) [ none ↦ 0 | some b ↦ b ]

unfoldable pub decode : Bytes → Tm
unfolding bcd2byte
decode buf = record {
  tm_sec = pos (bcd2byte (byte_at buf 1 % 128));
  tm_min = pos (bcd2byte (byte_at buf 2 % 128));
  tm_hour = pos (bcd2byte (byte_at buf 3 % 64));
  tm_mday = pos (bcd2byte (byte_at buf 5 % 64));
  tm_mon = pos (bcd2byte (byte_at buf 6 % 32));
  tm_year = pos (bcd2byte (byte_at buf 7 % 256) + 100);
  tm_wday = pos 0;
  tm_yday = pos 0;
  tm_isdst = pos 0;
}

-- The driver: `oscfailed` and the state of the I2C access.
pub record Rtc4162 (Wire : Type 0) : Type 0 where
  pub i2c : I2c Wire
  pub oscfailed : Bool

module _ (t : Tools) where
  open t use {Wire}

  unfoldable pub read_register : ℕ → Bytes → ℕ → I2c Wire → Bool × Bytes × I2c Wire
  read_register reg buf len s =
      let (failed, s') = i2c_writeb t reg [] s in
      if failed then (true, buf, s') else i2c_read t buf len s'

  unfoldable pub write_register : ℕ → Bytes → I2c Wire → Bool × I2c Wire
  write_register reg buf s = if ltb 16 (length buf) then (true, s) else i2c_writeb t reg buf s

  -- Reads one register, applies a mask and writes it back: the shape that both the square wave and
  -- the alarm register take in `rtc4162_init`, and the flags in `rtc4162_set`.
  unfoldable pub mask_register : ℕ → ℕ → Bytes → I2c Wire → Bool × Bytes × I2c Wire
  mask_register reg mask buf s =
      let (failed, buf', s') = read_register reg buf 1 s in
      if failed
      then (true, buf', s')
      else let masked = set buf' 0 (bit_and (byte_at buf' 0) mask) in
        let (refused, s'') = write_register reg (byte_at masked 0 ∷ []) s' in (refused, masked, s'')

  -- The branch of `rtc4162_init` for a failed oscillator: `byte` holds the flags.
  unfoldable pub reset_oscillator : ℕ → I2c Wire → Bool × I2c Wire
  reset_oscillator byte s =
      let (failed, s₁) = write_register 1 (bit_or byte 128 ∷ []) s in
      let (refused, s₂) = write_register 1 (bit_and (bit_or byte 128) 127 ∷ []) s₁ in
      if failed || refused
      then (true, s₂)
      else let (bad, buf, s₃) = mask_register 4 15 (bit_and (bit_or byte 128) 127 ∷ []) s₂ in
        if bad then (true, s₃) else let (bad', _, s₄) = mask_register 10 191 buf s₃ in (bad', s₄)

  -- `byte` is the local variable before anything was read into it.
  unfoldable pub rtc4162_init : ℕ → Rtc4162 Wire → Bool × Rtc4162 Wire
  rtc4162_init byte r =
      let (failed, buf, s) = read_register 15 (byte ∷ []) 1 (i2c_init 104 1 r.i2c) in
      if failed
      then (true, record r { i2c = s })
      else if bit_and (byte_at buf 0) 4 == 0
      then (false, record { i2c = s; oscfailed = false })
      else (let (bad, s') = reset_oscillator (byte_at buf 0) s in
          (bad, record { i2c = s'; oscfailed = true }))

  -- `buf` is the local buffer of 20 bytes before the read, with its first byte zero. Where the C
  -- function returns -1 it leaves `*dt` as it was.
  unfoldable pub rtc4162_get : Bytes → Rtc4162 Wire → Option Tm × Rtc4162 Wire
  rtc4162_get buf r =
      if r.oscfailed
      then (none, r)
      else let (failed, buf', s) = read_register 0 buf 8 r.i2c in
        if failed then (none, record r { i2c = s }) else (some (decode buf'), record r { i2c = s })

  -- The flag `oscfailed` itself stays set.
  unfoldable pub rtc4162_set : Tm → Rtc4162 Wire → Bool × Rtc4162 Wire
  rtc4162_set dt r =
      let (failed, s) = write_register 0 (encode dt) r.i2c in
      if failed
      then (true, record r { i2c = s })
      else if r.oscfailed
      then (let (bad, _, s') = mask_register 15 251 (0 ∷ []) s in (bad, record r { i2c = s' }))
      else (false, record r { i2c = s })
