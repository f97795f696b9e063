-- ===== src/Lwp/Format/Fields.antt =====
-- The packed date is a word of fields, and the text of a hardware address is its digits.
use lielas.Base.{
  ℕ, zero, suc, ◌+◌, ◌*◌, ◌/◌, ◌%◌, ◌^◌, ◌<◌, ◌≡◌, refl, ap, some, arith, Bytes, get_elem?, pos,
  sub_ℕ, if◌then◌else◌, ◌==◌,
}
use lielas.Lwp.Format.{compdt_to_tm, upper_at, mac_to_std_mac}

-- Byte `i` of a 32-bit word, the lowest first.
abbrev pub byte_of : ℕ → ℕ → ℕ
byte_of w i = w / 256 ^ i % 256

-- The packed date is a 32-bit word of the year in 6 bits, the month in 4, the day in 5, the hour in
-- 5, the minute in 6 and the second in 6, the lowest first: from the bytes of such a word the
-- members of the broken-down time are read back, the month counted from 0 and the year from 1900.
pub compdt_to_tm-fields :
    (year mon mday hour minute sec w : ℕ)
    → year < 64
    → mon < 16
    → mday < 32
    → hour < 32
    → minute < 64
    → sec < 64
    → w ≡ year + 64 * (mon + 16 * (mday + 32 * (hour + 32 * (minute + 64 * sec))))
    → compdt_to_tm (byte_of w 0) (byte_of w 1) (byte_of w 2) (byte_of w 3) ≡ record {
      tm_sec = pos sec;
      tm_min = pos minute;
      tm_hour = pos hour;
      tm_mday = pos mday;
      tm_mon = sub_ℕ mon 1;
      tm_year = pos (year + 100);
      tm_wday = pos 0;
      tm_yday = pos 0;
      tm_isdst = pos 0;
    }
unfolding compdt_to_tm
compdt_to_tm-fields year mon mday hour minute sec w hy hmo hd hh hmi hs e = λ i. record {
  tm_sec = pos (eq_sec i);
  tm_min = pos (eq_min i);
  tm_hour = pos (eq_hour i);
  tm_mday = pos (eq_mday i);
  tm_mon = sub_ℕ (eq_mon i) 1;
  tm_year = pos (eq_year i + 100);
  tm_wday = pos 0;
  tm_yday = pos 0;
  tm_isdst = pos 0;
}
  where
    eq_sec : byte_of w 3 / 4 ≡ sec
    eq_sec = omega arith

    eq_min : byte_of w 2 / 16 + byte_of w 3 % 4 * 16 ≡ minute
    eq_min = omega arith

    eq_hour : byte_of w 1 / 128 + byte_of w 2 % 16 * 2 ≡ hour
    eq_hour = omega arith

    eq_mday : byte_of w 1 / 4 % 32 ≡ mday
    eq_mday = omega arith

    eq_mon : byte_of w 0 / 64 + byte_of w 1 % 4 * 4 ≡ mon
    eq_mon = omega arith

    eq_year : byte_of w 0 % 64 ≡ year
    eq_year = omega arith

module _ (toupper : ℕ → ℕ) (src : Bytes) where
  upper_digit : (i c : ℕ) → get_elem? src i ≡ some c → upper_at toupper src i ≡ toupper c
  unfolding upper_at
  upper_digit i c e = rw (e, upper_at)

  -- Of an address with 16 digits, the text has digits `2 k` and `2 k + 1` in upper case at its
  -- places `3 k` and `3 k + 1`, a colon at place `3 k + 2` of all but the last pair, and a zero at
  -- the end.
  pub mac_to_std_mac-digits :
      (k a b : ℕ)
      → k < 8
      → get_elem? src (2 * k) ≡ some a
      → get_elem? src (2 * k + 1) ≡ some b
      → (get_elem? (mac_to_std_mac toupper src) (3 * k) ≡ some (toupper a))
        × (get_elem? (mac_to_std_mac toupper src) (3 * k + 1) ≡ some (toupper b))
        × (get_elem? (mac_to_std_mac toupper src) (3 * k + 2) ≡ some (if k == 7 then 0 else b':'))
  unfolding mac_to_std_mac
  mac_to_std_mac-digits zero a b h ea eb =
      (ap some (upper_digit 0 a ea), ap some (upper_digit 1 b eb), refl)
  mac_to_std_mac-digits (suc zero) a b h ea eb =
      (ap some (upper_digit 2 a ea), ap some (upper_digit 3 b eb), refl)
  mac_to_std_mac-digits (suc (suc zero)) a b h ea eb =
      (ap some (upper_digit 4 a ea), ap some (upper_digit 5 b eb), refl)
  mac_to_std_mac-digits (suc (suc (suc zero))) a b h ea eb =
      (ap some (upper_digit 6 a ea), ap some (upper_digit 7 b eb), refl)
  mac_to_std_mac-digits (suc (suc (suc (suc zero)))) a b h ea eb =
      (ap some (upper_digit 8 a ea), ap some (upper_digit 9 b eb), refl)
  mac_to_std_mac-digits (suc (suc (suc (suc (suc zero))))) a b h ea eb =
      (ap some (upper_digit 10 a ea), ap some (upper_digit 11 b eb), refl)
  mac_to_std_mac-digits (suc (suc (suc (suc (suc (suc zero)))))) a b h ea eb =
      (ap some (upper_digit 12 a ea), ap some (upper_digit 13 b eb), refl)
  mac_to_std_mac-digits (suc (suc (suc (suc (suc (suc (suc zero))))))) a b h ea eb =
      (ap some (upper_digit 14 a ea), ap some (upper_digit 15 b eb), refl)
  mac_to_std_mac-digits (suc (suc (suc (suc (suc (suc (suc (suc k)))))))) a b h ea eb =
      absurd (omega arith)
