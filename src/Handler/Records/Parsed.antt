-- ===== src/Handler/Records/Parsed.antt =====
-- What the parser of the records of a device returns, and where it writes outside its array.
use lielas.Base.{
  ℕ, zero, suc, ◌+◌, ◌*◌, ◌-◌, ◌≤◌, ◌<◌, ◌≡◌, refl, ap, true, false, List, [], ◌∷◌, ◌++◌, arith,
  Bytes, length, All, done, fault,
}
use lielas.Tm.{Tm}
use lielas.Lwp.Format.{compdt_to_tm}
use lielas.Handler.Records.{
  test_datetime, max_values, Datapaket, convert_value, parse_values, parse_records,
}

-- A record as the device sends it: the packed date, and two bytes for each channel.
pub record Entry : Type 0 where
  pub b0 : ℕ
  pub b1 : ℕ
  pub b2 : ℕ
  pub b3 : ℕ
  pub values : List (ℕ × ℕ)

unfoldable pub values_text : List (ℕ × ℕ) → Bytes
values_text [] = []
values_text ((lo, hi) ∷ vs) = lo ∷ hi ∷ values_text vs

unfoldable pub entries_text : List Entry → Bytes → Bytes
entries_text [] tail = tail
entries_text (e ∷ es) tail =
    e.b0 ∷ e.b1 ∷ e.b2 ∷ e.b3 ∷ (values_text e.values ++ entries_text es tail)

-- The bytes and the values of the records.
unfoldable pub bytes_of : List Entry → ℕ
bytes_of [] = 0
bytes_of (e ∷ es) = 4 + 2 * length e.values + bytes_of es

unfoldable pub values_of : List Entry → ℕ
values_of [] = 0
values_of (e ∷ es) = length e.values + values_of es

module _ (mktime : Tm → Tm) (print : (cnr raw : ℕ) → Bytes) where
  abbrev pub entry_date : Entry → Tm
  entry_date e = mktime (compdt_to_tm e.b0 e.b1 e.b2 e.b3)

  -- The packets of the values of one record, from channel `cnr` on.
  unfoldable pub packets : ℕ → Tm → List (ℕ × ℕ) → List Datapaket
  packets cnr dt [] = []
  packets cnr dt ((lo, hi) ∷ vs) =
      record { channel = cnr; dt = dt; value = convert_value mktime print cnr lo hi }
      ∷ packets (cnr + 1) dt vs

  unfoldable pub all_packets : List Entry → List Datapaket
  all_packets [] = []
  all_packets (e ∷ es) = packets 1 (entry_date e) e.values ++ all_packets es

  parse_values-packets :
      (vs : List (ℕ × ℕ)) (cnr datasets : ℕ) (dt : Tm) (s : Bytes)
      → datasets + length vs < max_values
      → parse_values mktime print (length vs) cnr datasets dt (values_text vs ++ s)
        ≡ done (packets cnr dt vs, s)
  unfolding parse_values values_text packets
  parse_values-packets [] cnr datasets dt s few = refl
  parse_values-packets ((lo, hi) ∷ vs) cnr datasets dt s few =
      ground (arith, parse_values-packets vs (cnr + 1) (datasets + 1) dt s (omega arith))

  length-packets : (vs : List (ℕ × ℕ)) (cnr : ℕ) (dt : Tm) → length (packets cnr dt vs) ≡ length vs
  unfolding packets
  length-packets [] cnr dt = refl
  length-packets ((lo, hi) ∷ vs) cnr dt = ap suc (length-packets vs (cnr + 1) dt)

  -- Each record has a value for each channel and a date that is valid after `mktime`.
  abbrev pub IsComplete : ℕ → Entry → Type 0
  IsComplete channels e = (length e.values ≡ channels) × (test_datetime (entry_date e) ≡ true)

  -- From complete records with valid dates, of fewer than 5000 values in all, the parser of the
  -- records makes one packet for each value, in order, each with the time of its record, its
  -- channel and its converted value; the received length is that of the records, and the fuel
  -- exceeds their count.
  pub parse_records-packets :
      (fuel channels len datasets : ℕ) (es : List Entry) (tail : Bytes)
      → All (IsComplete channels) es
      → datasets + values_of es < max_values
      → len ≡ bytes_of es
      → length es < fuel
      → parse_records mktime print fuel channels len datasets (entries_text es tail)
        ≡ done (all_packets es, false)
  unfolding parse_records entries_text bytes_of values_of all_packets
  parse_records-packets zero channels len datasets es tail complete few counted enough =
      absurd (omega arith)
  parse_records-packets (suc fuel) channels len datasets [] (a ∷ b ∷ c ∷ d ∷ tail) complete few
        counted enough =
      ground arith
  parse_records-packets (suc fuel) channels len datasets [] tail complete few counted enough =
      ground arith
  parse_records-packets (suc fuel) channels len datasets (e ∷ es) tail complete few counted enough =
      let vs = e.values in
      let dt = entry_date e in
      let n = length-packets vs 1 dt in
      let parsed = parse_values-packets vs 1 datasets dt (entries_text es tail) (omega arith) in
      let parsed' = rw complete.0.0 at parsed in
      let dps = packets 1 dt vs in
      let later =
        parse_records-packets fuel channels (len - 4 - 2 * length dps) (datasets + length dps) es
          tail complete.1 (omega (arith, n)) (omega (arith, n)) (omega arith) in
      ground (arith, complete.0.1, parsed', later)

  -- Once 5000 values are there, a further record with a valid date and a channel writes a packet
  -- behind the end of the array.
  pub parse_records_overflow :
      (fuel channels len datasets b0 b1 b2 b3 lo hi : ℕ) (s : Bytes)
      → max_values ≤ datasets
      → 0 < len
      → 0 < channels
      → test_datetime (mktime (compdt_to_tm b0 b1 b2 b3)) ≡ true
      → parse_records mktime print
          (suc fuel)
          channels
          len
          datasets
          (b0 ∷ b1 ∷ b2 ∷ b3 ∷ lo ∷ hi ∷ s)
        ≡ fault
  unfolding parse_records parse_values
  parse_records_overflow fuel zero len datasets b0 b1 b2 b3 lo hi s full some_left some_channel
        valid =
      absurd (omega arith)
  parse_records_overflow fuel (suc channels) len datasets b0 b1 b2 b3 lo hi s full some_left
        some_channel valid =
      ground arith
