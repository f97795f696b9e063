-- ===== src/Lwp/Parse/Ends.antt =====
-- `lwp_parse_wkc` ends on every text whose last byte is a newline.
use lielas.Base.{
  ℕ, zero, suc, ◌≤◌, ◌<◌, ◌≡◌, refl, ◌≢◌, Bool, false, some, [], ◌∷◌, arith, Bytes, length, drop,
  leb, Bool-cases, Run, Run-cases, if◌then◌else◌, done, fault, out_of_fuel, Option-cases, inl, inr,
  find_char,
}
use lielas.Lwp.Wkc.{Resource, Wkc, ResourceRef, max_name_len, deref, assign, reset_wkc}
use lielas.Lwp.Parse.{
  is_empty, res_name, scan_word, add_word, scan_title, title_value, locate, parse_link, link_start,
  parse_loop, parse_wkc,
}
use lielas.Lwp.Parse.Lines.{
  WordEnd-cases, EndsLine, title_value-EndsLine, scan_word-EndsLine, link_start-EndsLine,
  find_char-EndsLine, EndsLine-drop,
}

-- What a loop over such a text of `n` bytes may end with.
abbrev pub Ended {ℓ} : {A : Type ℓ} → ℕ → Run (Bool × A × Bytes) → Type 0
Ended n (done (failed, a, rest)) = EndsLine rest × (length rest ≤ n)
Ended n fault = Unit
Ended n out_of_fuel = ⊥

Ended-weaken {ℓ} :
    {A : Type ℓ} (n m : ℕ) (r : Run (Bool × A × Bytes)) → n ≤ m → Ended n r → Ended m r
Ended-weaken n m (done (failed, a, rest)) le h = (h.0, omega arith)
Ended-weaken n m fault le h = tt
Ended-weaken n m out_of_fuel le h = h

pub scan_title-Ended :
    (fuel : ℕ) (res : Resource) (s : Bytes)
    → EndsLine s
    → is_empty s ≡ false
    → length s < fuel
    → Ended (length s) (scan_title fuel res s)
unfolding scan_title scan_word
scan_title-Ended zero res s h ne enough = absurd (omega arith)
scan_title-Ended (suc fuel) res s h ne enough =
    let (no_end, line, le, next) = scan_word-EndsLine max_name_len s h ne in
    let (w, e, rest) = scan_word max_name_len s in
    let (failed, res') = add_word w res in
    elim (WordEnd-cases e) [
      | inl is_blank ↦
          let (ne', shorter) = next is_blank in
          let later = scan_title-Ended fuel res' rest line ne' (omega arith) in
          rw is_blank (elim (Bool-cases failed) [
            | inl f ↦ rw f (line, le)
            | inr f ↦ rw f (Ended-weaken (length rest) (length s) _ le later)
          ])
      | inr (inl is_end) ↦ rw is_end (line, le)
      | inr (inr (inl is_text)) ↦ absurd (no_end is_text)
      | inr (inr (inr is_full)) ↦ rw is_full tt
    ]

parse_link-Ended :
    (fuel : ℕ) (w : Wkc) (s : Bytes)
    → EndsLine s
    → length s < fuel
    → Ended (length s) (parse_link fuel w s)
unfolding parse_link
parse_link-Ended fuel w s h enough =
    let name = res_name max_name_len s in
    elim (Bool-cases (leb max_name_len (length name))) [
      | inl long ↦ rw long tt
      | inr fits ↦ rw fits (elim (Option-cases (locate name w).0) [
        | inl unknown ↦ rw unknown (h, omega arith)
        | inr (ref, known) ↦ rw known (elim (Option-cases (title_value s)) [
          | inl n ↦ rw n (h, omega arith)
          | inr (t, et) ↦ rw et (title (deref ref (locate name w).1) ref name t et)
        ])
      ])
    ]
  where
    title :
        (r : Resource) (ref : ResourceRef) (name t : Bytes)
        → title_value s ≡ some t
        → Ended
            (length s)
            (elim (scan_title fuel (record r { name = name }) t)
              as (λ x. Run (Bool × Wkc × Bytes)) [
                | done (failed, res, rest) ↦ done (failed, assign ref res (locate name w).1, rest)
                | fault ↦ fault
                | out_of_fuel ↦ out_of_fuel
              ])
    title r ref name t et =
        let (line, ne, le) = title_value-EndsLine s et h in
        let ended = scan_title-Ended fuel (record r { name = name }) t line ne (omega arith) in
        elim (Run-cases (scan_title fuel (record r { name = name }) t)) [
          | inl e ↦ rw e tt
          | inr (inl e) ↦ rw e (rw e at ended)
          | inr (inr (a, e)) ↦ let (line', le') = rw e at ended in rw e (line', omega arith)
        ]

length-rest : (s : Bytes) → is_empty s ≡ false → suc (length (drop 1 s)) ≡ length s
length-rest [] ne = absurd (cc)
length-rest (c ∷ s) ne = refl

round_ends :
    (rounds fuel : ℕ) (w : Wkc) (s : Bytes)
    → (is_empty s ≡ false → parse_loop rounds fuel w (drop 1 s) ≢ out_of_fuel)
    → (if is_empty s then done (false, w) else parse_loop rounds fuel w (drop 1 s)) ≢ out_of_fuel
round_ends rounds fuel w [] next = λ e. cc
round_ends rounds fuel w (c ∷ s) next = next refl

-- The rounds of the outer loop that the model gives it are enough for such a text.
parse_loop-ends :
    (rounds fuel : ℕ) (w : Wkc) (s : Bytes)
    → EndsLine s
    → length s < rounds
    → length s < fuel
    → parse_loop rounds fuel w s ≢ out_of_fuel
unfolding parse_loop
parse_loop-ends zero fuel w s h short enough = absurd (omega arith)
parse_loop-ends (suc rounds) fuel w s h short enough = elim (Option-cases (link_start s)) [
  | inl n ↦
      rw (n, parse_loop)
        (round_ends rounds fuel w s λ ne.
          parse_loop-ends rounds fuel w (drop 1 s) (EndsLine-drop s h)
            (omega (arith, length-rest s ne)) (omega (arith, length-rest s ne)))
  | inr (t, et) ↦
      let (line, lt) = link_start-EndsLine s et h in
      let ended = parse_link-Ended fuel w t line (omega arith) in
      rw (et, parse_loop)
        (elim (Run-cases (parse_link fuel w t)) [
          | inl e ↦ rw e (λ e'. cc)
          | inr (inl e) ↦ absurd (rw e at ended)
          | inr (inr ((failed, w', s'), e)) ↦
              let (line', le) = rw e at ended in
              rw e (elim (Bool-cases failed) [
                | inl f ↦ rw f (λ e'. cc)
                | inr f ↦ rw f (
                    round_ends rounds fuel w' s' λ ne.
                      parse_loop-ends rounds fuel w' (drop 1 s') (EndsLine-drop s' line')
                        (omega (arith, length-rest s' ne)) (omega (arith, length-rest s' ne)))
              ])
        ])
]

-- On a text that ends with a newline the parser of the resource description ends: no loop uses up
-- its fuel once the fuel of a loop over a title exceeds the length of the text.
pub parse_wkc-ends :
    (fuel c : ℕ) (s : Bytes) (w : Wkc)
    → EndsLine s
    → length s < fuel
    → parse_wkc fuel (c ∷ s) w ≢ out_of_fuel
unfolding parse_wkc
parse_wkc-ends fuel c s w h enough = elim (Option-cases (find_char b'<' s)) [
  | inl n ↦ rw (n, parse_wkc) (λ e'. cc)
  | inr (t, et) ↦
      let (line, le) = find_char-EndsLine b'<' s et h in
      rw (et, parse_wkc)
        (parse_loop-ends (suc (length t)) fuel (reset_wkc w) t line (omega arith) (omega arith))
]
