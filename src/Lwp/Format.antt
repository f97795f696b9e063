-- ===== src/Lwp/Format.antt =====
-- `lwp_compdt_to_struct_tm` and `lwp_mac_to_std_mac` of lwp.c: the packed date of a record, and the
-- hardware address as text. `toupper` is that of the C library, a parameter.
pub mod Fields
use lielas.Base.{ℕ, ◌+◌, ◌*◌, ◌/◌, ◌%◌, none, some, [], ◌∷◌, Bytes, get_elem?, ℤ, pos, sub_ℕ}
use lielas.Tm.{Tm}

-- The four bytes of the date, each below 256. `(x & mask) >> k` is the field of `x` from bit `k`.
unfoldable pub compdt_to_tm : ℕ → ℕ → ℕ → ℕ → Tm
compdt_to_tm b0 b1 b2 b3 = record {
  tm_sec = pos (b3 / 4);
  tm_min = pos (b2 / 16 + b3 % 4 * 16);
  tm_hour = pos (b1 / 128 + b2 % 16 * 2);
  tm_mday = pos (b1 / 4 % 32);
  tm_mon = sub_ℕ (b0 / 64 + b1 % 4 * 4) 1;
  tm_year = pos (b0 % 64 + 100);
  tm_wday = pos 0;
  tm_yday = pos 0;
  tm_isdst = pos 0;
}

module _ (toupper : ℕ → ℕ) (src : Bytes) where
  -- `toupper(src[i])`; the buffer of the caller has 50 bytes, so no read is outside of it.
  unfoldable pub upper_at : ℕ → ℕ
  upper_at i = elim (get_elem? src i) [ none ↦ 0 | some c ↦ toupper c ]

  -- The 24 bytes that are written.
  unfoldable pub mac_to_std_mac : Bytes
  mac_to_std_mac =
      upper_at 0
      ∷ upper_at 1
      ∷ b':'
      ∷ upper_at 2
      ∷ upper_at 3
      ∷ b':'
      ∷ upper_at 4
      ∷ upper_at 5
      ∷ b':'
      ∷ upper_at 6
      ∷ upper_at 7
      ∷ b':'
      ∷ upper_at 8
      ∷ upper_at 9
      ∷ b':'
      ∷ upper_at 10
      ∷ upper_at 11
      ∷ b':'
      ∷ upper_at 12
      ∷ upper_at 13
      ∷ b':'
      ∷ upper_at 14
      ∷ upper_at 15
      ∷ 0
      ∷ []
