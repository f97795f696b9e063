-- ===== src/Lwp/Parse/Lines.antt =====
-- What the searches of the parser leave of a text that ends with a newline.
use lielas.Base.{
  ℕ, zero, suc, ◌≤◌, ◌<◌, ◌≡◌, refl, ◌≢◌, true, false, some, [], ◌∷◌, arith, Bytes, ◌==◌, length,
  drop, Bool-cases, ◌⊎◌, Option-cases, inl, inr, codes, starts_with, find_char, find_str,
}
use mathlib.Core.Path.{subst}
use lielas.Lwp.Parse.{
  WordEnd, blank, title_end, text_end, full, is_empty, scan_word, title_value, link_start,
}

-- The last byte, if there is one, is a newline.
unfoldable pub EndsLine : Bytes → Type 0
EndsLine [] = Unit
EndsLine (c ∷ s) = (is_empty s ≡ true → c ≡ b'\n') × EndsLine s

pub EndsLine-drop : (s : Bytes) → EndsLine s → EndsLine (drop 1 s)
unfolding EndsLine
EndsLine-drop [] h = tt
EndsLine-drop (c ∷ s) h = h.1

find_str-EndsLine :
    (p s : Bytes) {t : Bytes}
    → find_str p s ≡ some t
    → EndsLine s
    → EndsLine t × (length t ≤ length s)
unfolding find_str EndsLine
find_str-EndsLine p [] e h = absurd (cc)
find_str-EndsLine p (x ∷ s) {t} e h = elim (Bool-cases (starts_with p (x ∷ s))) [
  | inl hit ↦
      let same : x ∷ s ≡ t = ground arith in
      subst (λ t. EndsLine t × (length t ≤ length (x ∷ s))) same (h, omega arith)
  | inr miss ↦ let (line, le) = find_str-EndsLine p s (rw miss at e) h.1 in (line, omega arith)
]

find_quote-EndsLine :
    (s : Bytes) {q : Bytes}
    → find_char b'"' s ≡ some q
    → EndsLine s
    → EndsLine (drop 1 q) × (is_empty (drop 1 q) ≡ false) × (length (drop 1 q) ≤ length s)
unfolding find_char EndsLine
find_quote-EndsLine [] e h = absurd (cc)
find_quote-EndsLine (x ∷ s) {q} e h = elim (Bool-cases (x == b'"')) [
  | inl hit ↦
      let same : x ∷ s ≡ q = ground arith in
      let more : is_empty s ≡ false = ground (arith, h.0) in
      subst
        (λ q.
          EndsLine (drop 1 q)
          × (is_empty (drop 1 q) ≡ false)
          × (length (drop 1 q) ≤ length (x ∷ s)))
        same (h.1, more, omega arith)
  | inr miss ↦
      let (line, ne, le) = find_quote-EndsLine s (rw miss at e) h.1 in (line, ne, omega arith)
]

pub title_value-EndsLine :
    (s : Bytes) {t : Bytes}
    → title_value s ≡ some t
    → EndsLine s
    → EndsLine t × (is_empty t ≡ false) × (length t ≤ length s)
unfolding title_value
title_value-EndsLine s {t} e h = elim (Option-cases (find_str (codes "title") s)) [
  | inl n ↦ absurd (ground (arith, n))
  | inr (u, eu) ↦
      let (line, le) = find_str-EndsLine (codes "title") s eu h in
      elim (Option-cases (find_char b'"' u)) [
        | inl n ↦ absurd (ground (arith, n, eu))
        | inr (q, eq) ↦
            let (line', ne, le') = find_quote-EndsLine u eq line in
            let same : drop 1 q ≡ t = ground (arith, eu, eq) in rw (← same) (line', ne, omega arith)
      ]
]

-- A word of such a text ends in it.
pub scan_word-EndsLine :
    (room : ℕ) (s : Bytes)
    → EndsLine s
    → is_empty s ≡ false
    → ((scan_word room s).1 ≢ text_end)
      × EndsLine (scan_word room s).2
      × (length (scan_word room s).2 ≤ length s)
      × ((scan_word room s).1 ≡ blank
          → (is_empty (scan_word room s).2 ≡ false) × (length (scan_word room s).2 < length s))
unfolding scan_word EndsLine
scan_word-EndsLine zero s h ne = ground arith
scan_word-EndsLine (suc room) [] h ne = absurd (cc)
scan_word-EndsLine (suc room) (c ∷ []) h ne = ground (arith, h.0 refl)
scan_word-EndsLine (suc room) (c ∷ d ∷ s) h ne =
    ground (arith, scan_word-EndsLine room (d ∷ s) h.1 refl)

pub WordEnd-cases : (e : WordEnd) → (e ≡ blank) ⊎ (e ≡ title_end) ⊎ (e ≡ text_end) ⊎ (e ≡ full)
WordEnd-cases blank = inl refl
WordEnd-cases title_end = inr (inl refl)
WordEnd-cases text_end = inr (inr (inl refl))
WordEnd-cases full = inr (inr (inr refl))

pub link_start-EndsLine :
    (s : Bytes) {t : Bytes}
    → link_start s ≡ some t
    → EndsLine s
    → EndsLine t × (length t < length s)
unfolding link_start EndsLine
link_start-EndsLine [] e h = absurd (cc)
link_start-EndsLine (a ∷ []) e h = absurd (cc)
link_start-EndsLine (a ∷ b ∷ s) {t} e h =
    let same : s ≡ t = ground arith in
    subst (λ t. EndsLine t × (length t < length (a ∷ b ∷ s))) same (h.1.1, omega arith)

pub find_char-EndsLine :
    (c : ℕ) (s : Bytes) {t : Bytes}
    → find_char c s ≡ some t
    → EndsLine s
    → EndsLine t × (length t ≤ length s)
unfolding find_char EndsLine
find_char-EndsLine c [] e h = absurd (cc)
find_char-EndsLine c (x ∷ s) {t} e h = elim (Bool-cases (x == c)) [
  | inl hit ↦
      let same : x ∷ s ≡ t = ground arith in
      subst (λ t. EndsLine t × (length t ≤ length (x ∷ s))) same (h, omega arith)
  | inr miss ↦ let (line, le) = find_char-EndsLine c s (rw miss at e) h.1 in (line, omega arith)
]
