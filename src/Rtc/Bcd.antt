-- ===== src/Rtc/Bcd.antt =====
-- Binary-coded decimal: what the driver encodes it decodes to the same time.
use lielas.Base.{ℕ, ◌+◌, ◌-◌, ◌%◌, ◌<◌, ◌≡◌, false, arith, ℤ, pos, negsuc, ltb_ℤ, wrap, ap}
use lielas.Tm.{Tm}
use lielas.Rtc.Chip.{bcd2byte, byte2bcd, encode, decode}
use lielas.Rtc.Clock.{testdt}

-- The value lies in the range that `testdt` asks of a member.
record Within (lo hi : ℕ) (z : ℤ) : Type 0 where
  low : ltb_ℤ z (pos lo) ≡ false
  high : ltb_ℤ (pos hi) z ≡ false

record Valid (dt : Tm) : Type 0 where
  sec : Within 0 59 dt.tm_sec
  min : Within 0 59 dt.tm_min
  hour : Within 0 23 dt.tm_hour
  mday : Within 1 31 dt.tm_mday
  mon : Within 0 11 dt.tm_mon
  year : Within 100 200 dt.tm_year

testdt-Valid : (dt : Tm) → testdt dt ≡ false → Valid dt
unfolding testdt
testdt-Valid dt h = ground arith

-- seconds and minutes, hours and days, the month, the year
field_128 : (z : ℤ) → Within 0 59 z → pos (bcd2byte (byte2bcd z % 128 % 128)) ≡ z
unfolding bcd2byte byte2bcd
field_128 (pos n) h = let le : n < 60 = ground arith in ap pos (omega arith)
field_128 (negsuc n) h = absurd (ground arith)

field_64 : (z : ℤ) → Within 0 31 z → pos (bcd2byte (byte2bcd z % 64 % 64)) ≡ z
unfolding bcd2byte byte2bcd
field_64 (pos n) h = let le : n < 32 = ground arith in ap pos (omega arith)
field_64 (negsuc n) h = absurd (ground arith)

field_32 : (z : ℤ) → Within 0 11 z → pos (bcd2byte (byte2bcd z % 32 % 32)) ≡ z
unfolding bcd2byte byte2bcd
field_32 (pos n) h = let le : n < 12 = ground arith in ap pos (omega arith)
field_32 (negsuc n) h = absurd (ground arith)

field_year :
    (z : ℤ)
    → Within 100 200 z
    → pos (bcd2byte (byte2bcd (pos ((wrap 256 z + 256 - 100) % 256)) % 256 % 256) + 100) ≡ z
unfolding bcd2byte byte2bcd
field_year (pos n) h =
    let below : n < 201 = ground arith in let above : 99 < n = ground arith in ap pos (omega arith)
field_year (negsuc n) h = absurd (ground arith)

Within-weaken : {lo hi : ℕ} (z : ℤ) → hi < 32 → Within lo hi z → Within 0 31 z
Within-weaken z le h = ground arith

-- The registers that the driver writes for a time that passes `testdt` decode to that time, with
-- the day of the week, the day of the year and the daylight flag zero.
pub decode-encode :
    (dt : Tm)
    → testdt dt ≡ false
    → decode (encode dt) ≡ record dt { tm_wday = pos 0; tm_yday = pos 0; tm_isdst = pos 0 }
unfolding decode encode
decode-encode dt h =
    let v = testdt-Valid dt h in
    let hour = Within-weaken dt.tm_hour (omega arith) v.hour in
    let mday = Within-weaken dt.tm_mday (omega arith) v.mday in
    λ i. record {
      tm_sec = field_128 dt.tm_sec v.sec i;
      tm_min = field_128 dt.tm_min v.min i;
      tm_hour = field_64 dt.tm_hour hour i;
      tm_mday = field_64 dt.tm_mday mday i;
      tm_mon = field_32 dt.tm_mon v.mon i;
      tm_year = field_year dt.tm_year v.year i;
      tm_wday = pos 0;
      tm_yday = pos 0;
      tm_isdst = pos 0;
    }
