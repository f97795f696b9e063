-- ===== src/Handler/Records.antt =====
-- The part of `getDeviceData` of devicehandler.c that parses the records of a device, with
-- `testDatetime` and `convertValueWithExponent`. A record is a packed date of four bytes and two
-- bytes for each channel.
pub mod Parsed
use lielas.Base.{
  ℕ, zero, suc, ◌+◌, ◌*◌, ◌-◌, Bool, true, false, not, Option, none, some, List, [], ◌∷◌, ◌++◌,
  Bytes, ◌==◌, leb, ltb, if◌then◌else◌, length, Run, done, fault, out_of_fuel, ◌>>=◌,
}
use lielas.Tm.{Tm}
use lielas.Lwp.Format.{compdt_to_tm}
use lielas.Rtc.Clock.{testdt}

-- `testDatetime`, the same tests as `testdt` of rtc.c with the opposite result.
unfoldable pub test_datetime : Tm → Bool
test_datetime dt = not (testdt dt)

abbrev pub max_values : ℕ
max_values = 5000

abbrev pub decimal_point : ℕ
decimal_point = b','

-- The first point of the text becomes a comma.
unfoldable pub point_to_comma : Bytes → Bytes
point_to_comma [] = []
point_to_comma (c ∷ s) = if c == b'.' then decimal_point ∷ s else c ∷ point_to_comma s

-- A datapaket: the channel, the time and the text of the value.
pub record Datapaket : Type 0 where
  pub channel : ℕ
  pub dt : Tm
  pub value : Bytes

-- What the C library does: `mktime` brings the members into their ranges, and `snprintf` prints the
-- number scaled by the exponent of channel `cnr` into the buffer.
module _ (mktime : Tm → Tm) (print : (cnr raw : ℕ) → Bytes) where
  -- `low + high` of two bytes, scaled and printed with a decimal comma.
  unfoldable pub convert_value : ℕ → ℕ → ℕ → Bytes
  convert_value cnr lo hi = point_to_comma (print cnr (lo + hi * 256))

  -- The loop over the channels from `cnr` on, with `left` of them left and `datasets` values so
  -- far. It stops when 5000 values are there. The array holds 5000 pointers. The packets that are
  -- added, and the text behind.
  unfoldable pub parse_values : ℕ → ℕ → ℕ → Tm → Bytes → Run (List Datapaket × Bytes)
  parse_values zero cnr datasets dt s = done ([], s)
  parse_values (suc left) cnr datasets dt [] = fault
  parse_values (suc left) cnr datasets dt (lo ∷ []) = fault
  parse_values (suc left) cnr datasets dt (lo ∷ hi ∷ s) =
      let dp : Datapaket = record { channel = cnr; dt = dt; value = convert_value cnr lo hi } in
      let rest = parse_values left (cnr + 1) (datasets + 1) dt s in
      if leb max_values datasets
      then fault
      else if leb max_values (datasets + 1)
      then done (dp ∷ [], s)
      else (rest >>= λ (more, s'). done (dp ∷ more, s'))

  -- The loop over the records. `s` is the buffer from `pos` on, `len` what of it was received. The
  -- Boolean is true where a date is not valid, which ends the loop.
  unfoldable pub parse_records : ℕ → ℕ → ℕ → ℕ → Bytes → Run (List Datapaket × Bool)
  parse_records zero channels len datasets s = out_of_fuel
  parse_records (suc fuel) channels len datasets (b0 ∷ b1 ∷ b2 ∷ b3 ∷ s) =
      let dt = mktime (compdt_to_tm b0 b1 b2 b3) in
      let next = λ (dps : List Datapaket) (s' : Bytes).
        (parse_records fuel channels (len - 4 - 2 * length dps) (datasets + length dps) s'
          >>= λ (more, bad). done (dps ++ more, bad)) in
      if len == 0
      then done ([], false)
      else if test_datetime dt
      then (parse_values channels 1 datasets dt s >>= λ (dps, s'). next dps s')
      else done ([], true)
  parse_records (suc fuel) channels len datasets s = if len == 0 then done ([], false) else fault
