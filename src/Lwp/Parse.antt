-- ===== src/Lwp/Parse.antt =====
-- `lwp_parse_wkc` of lwp.c. The position `pos` is modelled by the text from there on. Buffers for
-- names have 100 bytes, so a name of 100 bytes or more is a write outside its buffer. Both loops
-- run on fuel: the loop over a title does not end on every input. The code's `int pos` has no bound
-- here; it leaves its range after 2 ^ 31 characters or rounds.
pub mod Title
pub mod RoundTrip
pub mod Lines
pub mod Ends
use lielas.Base.{
  ℕ, zero, suc, ◌+◌, Bool, true, false, ◌&&◌, ◌||◌, Option, none, some, [], ◌∷◌, Bytes, ◌==◌, leb,
  if◌then◌else◌, codes, length, drop, Run, done, fault, out_of_fuel, starts_with, find_char,
  find_str,
}
use lielas.Lwp.Wkc.{
  Resource, Wkc, ResourceRef, max_channels, max_name_len, get_res_by_name, deref, assign, add_attr,
  reset_wkc,
}

-- The name of a resource: at most `room` bytes, up to `>` or the end.
unfoldable pub res_name : ℕ → Bytes → Bytes
res_name zero s = []
res_name (suc room) [] = []
res_name (suc room) (c ∷ s) = if c == b'>' then [] else c ∷ res_name room s

-- Why the scan of one word of a title ended: a space, the end of the title, the end of the text, or
-- a full buffer.
pub data WordEnd : Type 0 where
  blank title_end text_end full : WordEnd

abbrev pub is_stop : ℕ → Bool
is_stop c = c == b'"' || c == b'\n' || c == b'|'

-- One word, why it ended, and the text behind the byte that ended it.
unfoldable pub scan_word : ℕ → Bytes → Bytes × WordEnd × Bytes
scan_word zero s = ([], full, s)
scan_word (suc room) [] = ([], text_end, [])
scan_word (suc room) (c ∷ s) =
    let (w, e, rest) = scan_word room s in
    if c == b' ' then ([], blank, s) else if is_stop c then ([], title_end, s) else (c ∷ w, e, rest)

abbrev pub is_empty : Bytes → Bool
is_empty [] = true
is_empty (c ∷ s) = false

-- An attribute is added for each word that is not empty.
unfoldable pub add_word : Bytes → Resource → Bool × Resource
add_word w res = if is_empty w then (false, res) else add_attr w res

-- The loop over a title: true where the parser gives up, the resource, and the text behind.
unfoldable pub scan_title : ℕ → Resource → Bytes → Run (Bool × Resource × Bytes)
scan_title zero res s = out_of_fuel
scan_title (suc fuel) res s =
    let (w, e, rest) = scan_word max_name_len s in
    let (failed, res') = add_word w res in
    let more = scan_title fuel res' rest in
    elim e [
      | full ↦ fault
      | title_end ↦ done (failed, res', rest)
      | _ ↦ if failed then done (true, res', rest) else more
    ]

-- The start of the value of the title, behind its quote.
unfoldable pub title_value : Bytes → Option Bytes
title_value s = elim (find_str (codes "title") s) [
  | none ↦ none
  | some t ↦ elim (find_char b'"' t) [ none ↦ none | some q ↦ some (drop 1 q) ]
]

-- The resource with that name, and the count of channels, which a further channel raises; a
-- channel too many is an unknown resource.
unfoldable pub locate : Bytes → Wkc → Option ResourceRef × Wkc
locate name w =
    let ref = get_res_by_name name w in
    if starts_with (codes "channel") name
    then (if leb max_channels (w.channels + 1)
        then (none, w)
        else (ref, record w { channels = w.channels + 1 }))
    else (ref, w)

-- What follows `</`: true where the parser gives up, the description, and the text from `pos` on.
unfoldable pub parse_link : ℕ → Wkc → Bytes → Run (Bool × Wkc × Bytes)
parse_link fuel w s =
    let name = res_name max_name_len s in
    if leb max_name_len (length name)
    then fault
    else let (found, w₁) = locate name w in
      elim found [
        | none ↦ done (false, w₁, s)
        | some ref ↦
            let named = record (deref ref w₁) { name = name } in
            elim (title_value s) [
              | none ↦ done (true, assign ref named w₁, s)
              | some t ↦ elim (scan_title fuel named t) [
                | done (failed, res, rest) ↦ done (failed, assign ref res w₁, rest)
                | fault ↦ fault
                | out_of_fuel ↦ out_of_fuel
              ]
            ]
      ]

-- `str[pos] == '<' && str[pos+1] == '/'`: what follows, or the text as it is.
unfoldable pub link_start : Bytes → Option Bytes
link_start (a ∷ b ∷ s) = if a == b'<' && b == b'/' then some s else none
link_start s = none

-- The loop over the text: true where the C function returns -1. `rounds` is the fuel of this loop,
-- `fuel` that of each loop over a title.
unfoldable pub parse_loop : ℕ → ℕ → Wkc → Bytes → Run (Bool × Wkc)
parse_loop zero fuel w s = out_of_fuel
parse_loop (suc rounds) fuel w s =
    let next = λ (w' : Wkc) (s' : Bytes). parse_loop rounds fuel w' (drop 1 s') in
    let finish = λ (w' : Wkc) (s' : Bytes). if is_empty s' then done (false, w') else next w' s' in
    elim (link_start s) [
      | none ↦ finish w s
      | some t ↦ elim (parse_link fuel w t) [
        | done (failed, w', s') ↦ if failed then done (true, w') else finish w' s'
        | fault ↦ fault
        | out_of_fuel ↦ out_of_fuel
      ]
    ]

-- A text with no `<` behind its first byte makes `strlen` read through a null pointer.
unfoldable pub parse_wkc : ℕ → Bytes → Wkc → Run (Bool × Wkc)
parse_wkc fuel [] w = done (true, w)
parse_wkc fuel (c ∷ s) w = elim (find_char b'<' s) [
  | none ↦ fault
  | some t ↦ parse_loop (suc (length t)) fuel (reset_wkc w) t
]
