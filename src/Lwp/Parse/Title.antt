-- ===== src/Lwp/Parse/Title.antt =====
-- The loop over a title: what it adds on a title that is closed, and that it does not end on one
-- that is not.
use lielas.Base.{
  ℕ, zero, suc, ◌+◌, ◌^◌, ◌<◌, ◌≡◌, refl, false, List, [], ◌∷◌, ◌++◌, arith, Bytes, ◌==◌, length,
  All, set, done, out_of_fuel,
}
use lielas.Lwp.Wkc.{Resource, max_attributes, max_name_len, add_attr}
use lielas.Lwp.Parse.{
  blank, title_end, text_end, is_stop, is_empty, scan_word, add_word, scan_title,
}

-- A byte that is part of a word.
abbrev pub IsWordByte : ℕ → Type 0
IsWordByte c = ((c == b' ') ≡ false) × (is_stop c ≡ false)

-- An attribute name that the buffer holds.
pub record IsWord (w : Bytes) : Type 0 where
  pub bytes : All IsWordByte w
  pub not_empty : is_empty w ≡ false
  pub short : length w < max_name_len

scan_word-blank :
    (room : ℕ) (w rest : Bytes)
    → All IsWordByte w
    → length w < room
    → scan_word room (w ++ b' ' ∷ rest) ≡ (w, blank, rest)
unfolding scan_word
scan_word-blank zero w rest plain short = absurd (omega arith)
scan_word-blank (suc room) [] rest plain short = refl
scan_word-blank (suc room) (x ∷ w) rest plain short =
    rw (plain.0.0, plain.0.1, scan_word-blank room w rest plain.1 (omega arith))

scan_word-quote :
    (room : ℕ) (w rest : Bytes)
    → All IsWordByte w
    → length w < room
    → scan_word room (w ++ b'"' ∷ rest) ≡ (w, title_end, rest)
unfolding scan_word
scan_word-quote zero w rest plain short = absurd (omega arith)
scan_word-quote (suc room) [] rest plain short = refl
scan_word-quote (suc room) (x ∷ w) rest plain short =
    rw (plain.0.0, plain.0.1, scan_word-quote room w rest plain.1 (omega arith))

-- A title as a device writes it: the words with a space between two, and the closing quote.
unfoldable pub title_text : Bytes → List Bytes → Bytes → Bytes
title_text w [] rest = w ++ b'"' ∷ rest
title_text w (v ∷ vs) rest = w ++ b' ' ∷ title_text v vs rest

-- The resource with the words added in turn.
unfoldable pub with_attrs : Resource → List Bytes → Resource
with_attrs res [] = res
with_attrs res (w ∷ ws) =
    with_attrs
      (record res { attributes = res.attributes + 1; attr = set res.attr res.attributes w }) ws

add_word-room :
    (w : Bytes) (res : Resource)
    → is_empty w ≡ false
    → res.attributes + 1 < max_attributes
    → add_word w res ≡ (false, with_attrs res (w ∷ []))
unfolding add_word add_attr with_attrs
add_word-room w res e room = ground arith

-- A closed title of words adds them all in order to a resource that has room for them, and ends
-- behind its quote; the fuel exceeds the count of its further words.
pub scan_title-words :
    (fuel : ℕ) (w : Bytes) (ws : List Bytes) (res : Resource) (rest : Bytes)
    → IsWord w
    → All IsWord ws
    → res.attributes + length (w ∷ ws) < max_attributes
    → length ws < fuel
    → scan_title fuel res (title_text w ws rest) ≡ done (false, with_attrs res (w ∷ ws), rest)
unfolding scan_title title_text with_attrs
scan_title-words zero w ws res rest word words room enough = absurd (omega arith)
scan_title-words (suc fuel) w [] res rest word words room enough = ground (
  arith,
  scan_word-quote max_name_len w rest word.bytes word.short,
  add_word-room w res word.not_empty (omega arith),
)
scan_title-words (suc fuel) w (v ∷ vs) res rest word words room enough =
    let scanned = scan_word-blank max_name_len w (title_text v vs rest) word.bytes word.short in
    let added = add_word-room w res word.not_empty (omega arith) in
    let later =
      scan_title-words fuel v vs (with_attrs res (w ∷ [])) rest words.0 words.1 (omega arith)
        (omega arith) in
    ground (arith, scanned, added, later)

-- The same text cut off before its closing quote.
unfoldable pub open_title : Bytes → List Bytes → Bytes
open_title w [] = w
open_title w (v ∷ vs) = w ++ b' ' ∷ open_title v vs

scan_word-end :
    (room : ℕ) (w : Bytes)
    → All IsWordByte w
    → length w < room
    → scan_word room w ≡ (w, text_end, [])
unfolding scan_word
scan_word-end zero w plain short = absurd (omega arith)
scan_word-end (suc room) [] plain short = refl
scan_word-end (suc room) (x ∷ w) plain short =
    rw (plain.0.0, plain.0.1, scan_word-end room w plain.1 (omega arith))

-- Behind the end of the text the loop makes rounds and does nothing.
scan_title-nil : (fuel : ℕ) (res : Resource) → scan_title fuel res [] ≡ out_of_fuel
unfolding scan_title scan_word add_word
scan_title-nil zero res = refl
scan_title-nil (suc fuel) res = scan_title-nil fuel res

scan_title_open :
    (fuel : ℕ) (w : Bytes) (ws : List Bytes) (res : Resource)
    → IsWord w
    → All IsWord ws
    → res.attributes + length (w ∷ ws) < max_attributes
    → scan_title fuel res (open_title w ws) ≡ out_of_fuel
unfolding scan_title open_title with_attrs
scan_title_open zero w ws res word words room = refl
scan_title_open (suc fuel) w [] res word words room =
    let scanned = scan_word-end max_name_len w word.bytes word.short in
    let added = add_word-room w res word.not_empty (omega arith) in
    ground (arith, scanned, added, scan_title-nil fuel (with_attrs res (w ∷ [])))
scan_title_open (suc fuel) w (v ∷ vs) res word words room =
    let scanned = scan_word-blank max_name_len w (open_title v vs) word.bytes word.short in
    let added = add_word-room w res word.not_empty (omega arith) in
    let later = scan_title_open fuel v vs (with_attrs res (w ∷ [])) words.0 words.1 (omega arith) in
    ground (arith, scanned, added, later)

-- On a title of words that the text ends before its quote the loop over the title does not end: it
-- goes on for each count of rounds for which the position in the text, an int, stays below 2^31;
-- the resource has room for the words.
pub scan_title_endless :
    (start fuel : ℕ) (w : Bytes) (ws : List Bytes) (res : Resource)
    → IsWord w
    → All IsWord ws
    → res.attributes + length (w ∷ ws) < max_attributes
    → start + length (open_title w ws) + fuel < 2 ^ 31
    → scan_title fuel res (open_title w ws) ≡ out_of_fuel
scan_title_endless start fuel w ws res word words room below =
    scan_title_open fuel w ws res word words room
