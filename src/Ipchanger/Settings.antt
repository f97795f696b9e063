-- ===== src/Ipchanger/Settings.antt =====
-- `get_settings` of ipchanger/src/main.c: the interfaces file is read by `fgets` into a buffer of
-- 500 bytes, and the type, address, netmask and gateway of eth0 are printed.
pub mod Reading
use lielas.Base.{
  ℕ, zero, suc, ◌+◌, Bool, true, false, ◌||◌, Option, none, some, List, [], ◌∷◌, Bytes, ◌==◌, ltb,
  ◌-◌, if◌then◌else◌, codes, length, drop, find_str, Run, done, fault, ◌>>=◌,
}

abbrev pub buf_size : ℕ
buf_size = 500

abbrev pub onto_first : ℕ → List Bytes → List Bytes
onto_first c [] = (c ∷ []) ∷ []
onto_first c (l ∷ ls) = (c ∷ l) ∷ ls

-- What the calls of `fgets` return one after another. A line ends behind its newline, or where the
-- buffer is full; `room` is what is left of it.
unfoldable pub read_lines : ℕ → Bytes → List Bytes
read_lines room [] = []
read_lines room (c ∷ s) =
    let next = read_lines (buf_size - 1) s in
    let more = read_lines (room - 1) s in
    if c == b'\n' || room == 1 then (c ∷ []) ∷ next else onto_first c more

-- The string in what `fgets` wrote: the functions on strings stop at a zero byte of the file.
unfoldable pub line_text : Bytes → Bytes
line_text [] = []
line_text (c ∷ s) = let more = line_text s in if c == 0 then [] else c ∷ more

unfoldable pub line_texts : List Bytes → List Bytes
line_texts [] = []
line_texts (l ∷ ls) = line_text l ∷ line_texts ls

-- The lines of a file as strings.
unfoldable pub file_lines : Bytes → List Bytes
file_lines file = line_texts (read_lines (buf_size - 1) file)

-- The exit code of the process is 0 or not.
pub data Exit : Type 0 where
  success failure : Exit

-- The bytes up to a space, a newline or the end.
unfoldable pub word : Bytes → Bytes
word [] = []
word (c ∷ s) = let more = word s in if c == b' ' || c == b'\n' then [] else c ∷ more

-- `ptr += sizeof(key)`, which steps over the key and one byte behind it. Without that byte the
-- pointer stands behind the terminating zero.
unfoldable pub value_behind : Bytes → Bytes → Run Bytes
value_behind key p =
    if ltb (length key) (length p) then done (word (drop (suc (length key)) p)) else fault

-- The value of a key on each of the next lines. A missing line ends the program with success, a
-- line without the key with failure.
unfoldable pub read_values : List Bytes → List Bytes → Run (List Bytes × Exit)
read_values [] ls = done ([], success)
read_values (key ∷ keys) [] = done ([], success)
read_values (key ∷ keys) (l ∷ ls) =
    let rest = read_values keys ls in
    elim (find_str key l) [
      | none ↦ done ([], failure)
      | some p ↦ value_behind key p >>= λ v. rest >>= λ (vs, e). done (v ∷ vs, e)
    ]

-- The line behind the head of the interface is ignored.
unfoldable pub read_static : List Bytes → Run (List Bytes × Exit)
read_static [] = done (codes "static" ∷ [], success)
read_static (ignored ∷ ls) =
    read_values (codes "address" ∷ codes "netmask" ∷ codes "gateway" ∷ []) ls >>= λ (vs, e).
    done (codes "static" ∷ vs, e)

unfoldable pub read_type : Bytes → List Bytes → Run (List Bytes × Exit)
read_type l ls = elim (find_str (codes "dhcp") l) [
  | some _ ↦ done (codes "dhcp" ∷ [], success)
  | none ↦ elim (find_str (codes "static") l) [
    | some _ ↦ read_static ls
    | none ↦ done (codes "unknown" ∷ [], failure)
  ]
]

unfoldable pub search_interface : List Bytes → Run (List Bytes × Exit)
search_interface [] = done ([], success)
search_interface (l ∷ ls) =
    let rest = search_interface ls in
    elim (find_str (codes "iface eth0 inet ") l) [ some _ ↦ read_type l ls | none ↦ rest ]

-- The lines that are printed, and the exit code; `none` is a file that cannot be opened.
unfoldable pub get_settings : Option Bytes → Run (List Bytes × Exit)
get_settings none = done ([], failure)
get_settings (some file) = search_interface (file_lines file)
