-- ===== src/Lwp/Parse/RoundTrip.antt =====
-- `lwp_parse_wkc` reads back the description that a device publishes.
use lielas.Base.{
  ℕ, zero, suc, ◌+◌, ◌≤◌, ◌<◌, ◌≡◌, refl, ◌∙◌, false, some, List, [], ◌∷◌, ◌++◌, arith, Bytes,
  codes, length, All, done, ◌>>=◌, length-append, starts_with, find_char, find_str,
}
use lielas.Lwp.Wkc.{Wkc, ResourceRef, max_attributes, get_res_by_name, deref, assign, reset_wkc}
use lielas.Lwp.Parse.{
  res_name, locate, title_value, parse_link, link_start, parse_loop, parse_wkc, scan_title,
}
use lielas.Lwp.Parse.Title.{IsWord, title_text, with_attrs, scan_title-words}
use lielas.Base.{str_eq, starts_with, find_char, find_str}

-- The resources that have one place in the description.
pub data Kind : Type 0 where
  info_kind device_kind modul_kind network_kind database_kind logger_kind : Kind

unfoldable pub kind_name : Kind → Bytes
kind_name info_kind = codes "info"
kind_name device_kind = codes "device"
kind_name modul_kind = codes "modul"
kind_name network_kind = codes "network"
kind_name database_kind = codes "database"
kind_name logger_kind = codes "logger"

unfoldable pub kind_ref : Kind → ResourceRef
kind_ref info_kind = ResourceRef.info
kind_ref device_kind = ResourceRef.device
kind_ref modul_kind = ResourceRef.modul
kind_ref network_kind = ResourceRef.network
kind_ref database_kind = ResourceRef.database
kind_ref logger_kind = ResourceRef.logger

-- One link of the description: a resource and the names of its attributes, one at least.
pub record Link : Type 0 where
  pub kind : Kind
  pub first : Bytes
  pub others : List Bytes

-- `</name>;title="a b c",`
unfoldable pub link_text : Link → Bytes → Bytes
link_text l rest =
    b'<'
    ∷ b'/'
    ∷ (kind_name l.kind ++ (codes ">;title=\"" ++ title_text l.first l.others (b',' ∷ rest)))

unfoldable pub links_text : List Link → Bytes
links_text [] = []
links_text (l ∷ ls) = link_text l (links_text ls)

-- What a link adds to the description.
unfoldable pub add_link : Wkc → Link → Wkc
add_link w l =
    let named = record (deref (kind_ref l.kind) w) { name = kind_name l.kind } in
    assign (kind_ref l.kind) (with_attrs named (l.first ∷ l.others)) w

unfoldable pub add_links : Wkc → List Link → Wkc
add_links w [] = w
add_links w (l ∷ ls) = add_links (add_link w l) ls

-- The names are words, and the resource has room for them.
pub record Fits (w : Wkc) (l : Link) : Type 0 where
  pub word : IsWord l.first
  pub words : All IsWord l.others
  pub room : (deref (kind_ref l.kind) w).attributes + length (l.first ∷ l.others) < max_attributes

abbrev pub AllFit : Wkc → List Link → Type 0
AllFit w [] = Unit
AllFit w (l ∷ ls) = Fits w l × AllFit (add_link w l) ls

parse_kind :
    (k : Kind) (fuel : ℕ) (w : Wkc) (t : Bytes)
    → parse_link fuel w (kind_name k ++ (codes ">;title=\"" ++ t)) ≡ (
        scan_title fuel (record (deref (kind_ref k) w) { name = kind_name k }) t
        >>= λ (failed, res, rest). done (failed, assign (kind_ref k) res w, rest))
unfolding parse_link kind_name kind_ref res_name locate get_res_by_name starts_with title_value
    find_str find_char deref assign str_eq
parse_kind info_kind fuel w t = ground arith
parse_kind _ fuel w t = ground arith

parse_loop-link :
    (rounds fuel : ℕ) (w : Wkc) (l : Link) (rest : Bytes)
    → Fits w l
    → length l.others < fuel
    → parse_loop (suc rounds) fuel w (link_text l rest) ≡ parse_loop rounds fuel (add_link w l) rest
unfolding parse_loop link_start link_text add_link
parse_loop-link rounds fuel w l rest fits enough =
    let named = record (deref (kind_ref l.kind) w) { name = kind_name l.kind } in
    let title = title_text l.first l.others (b',' ∷ rest) in
    let scanned =
      scan_title-words fuel l.first l.others named (b',' ∷ rest) fits.word fits.words fits.room
        enough in
    let parsed = parse_kind l.kind fuel w title in ground (arith, parsed, scanned)

-- The fuel is enough for the words of every link.
abbrev pub EnoughFuel : ℕ → List Link → Type 0
EnoughFuel fuel ls = All (λ l. length l.others < fuel) ls

parse_loop-links :
    (rounds fuel : ℕ) (w : Wkc) (ls : List Link)
    → AllFit w ls
    → EnoughFuel fuel ls
    → length ls < rounds
    → parse_loop rounds fuel w (links_text ls) ≡ done (false, add_links w ls)
unfolding links_text add_links
parse_loop-links zero fuel w ls fit enough short = absurd (omega arith)
parse_loop-links (suc rounds) fuel w [] fit enough short = unfold parse_loop link_start in refl
parse_loop-links (suc rounds) fuel w (l ∷ ls) fit enough short =
    parse_loop-link rounds fuel w l (links_text ls) fit.0 enough.0
    ∙ parse_loop-links rounds fuel (add_link w l) ls fit.1 enough.1 (omega arith)

length-suffix :
    (w : Bytes) (ws : List Bytes) (rest : Bytes) → length rest ≤ length (title_text w ws rest)
unfolding title_text
length-suffix w [] rest = omega (arith, length-append w (b'"' ∷ rest))
length-suffix w (v ∷ vs) rest =
    omega (arith, length-append w (b' ' ∷ title_text v vs rest), length-suffix v vs rest)

length-links_text : (ls : List Link) → length ls ≤ length (links_text ls)
unfolding links_text link_text
length-links_text [] = omega arith
length-links_text (l ∷ ls) =
    let t = title_text l.first l.others (b',' ∷ links_text ls) in
    omega (
      arith,
      length-links_text ls,
      length-suffix l.first l.others (b',' ∷ links_text ls),
      length-append (kind_name l.kind) (codes ">;title=\"" ++ t),
    )

-- The parser of the resource description returns 0 on the text of any sequence of links to the six
-- single resources, one at least and behind one byte, and adds the attributes of each link in their
-- order to the description it has reset; each resource has room for its attributes, each name is a
-- word shorter than its buffer, and the fuel exceeds the count of the further words of each title.
pub parse_wkc-links_text :
    (fuel c : ℕ) (l : Link) (ls : List Link) (w : Wkc)
    → AllFit (reset_wkc w) (l ∷ ls)
    → EnoughFuel fuel (l ∷ ls)
    → parse_wkc fuel (c ∷ links_text (l ∷ ls)) w ≡ done (false, add_links (reset_wkc w) (l ∷ ls))
unfolding parse_wkc
parse_wkc-links_text fuel c l ls w fit enough =
    let t = links_text (l ∷ ls) in
    let found : find_char b'<' t ≡ some t = unfold links_text link_text find_char in refl in
    let whole =
      parse_loop-links (suc (length t)) fuel (reset_wkc w) (l ∷ ls) fit enough
        (omega (arith, length-links_text (l ∷ ls))) in
    rw (found, parse_wkc) whole
