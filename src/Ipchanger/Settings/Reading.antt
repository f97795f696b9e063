-- ===== src/Ipchanger/Settings/Reading.antt =====
-- What `get_settings` reads from an interfaces file.
use lielas.Base.{
  ℕ, suc, ◌-◌, ◌<◌, ◌≤◌, ◌≡◌, refl, ap, ◌≢◌, List, [], ◌∷◌, ◌++◌, Bytes, arith, All, length,
  length-append, codes, drop, done, append_assoc,
}
use lielas.Ipchanger.Settings.{read_lines, line_text, line_texts, file_lines, word, value_behind}

-- No newline and no zero, and with a newline it fits into the buffer.
pub record IsLine (l : Bytes) : Type 0 where
  pub no_newline : All (λ c. c ≢ b'\n') l
  pub no_zero : All (λ c. c ≢ 0) l
  pub short : length l ≤ 480

-- A line without spaces.
pub record IsValue (v : Bytes) : Type 0 where
  pub line : IsLine v
  pub no_space : All (λ c. c ≢ b' ') v

read_lines-step :
    (room : ℕ) (l s : Bytes)
    → All (λ c. c ≢ b'\n') l
    → length l < room
    → read_lines room (l ++ b'\n' ∷ s) ≡ (l ++ b'\n' ∷ []) ∷ read_lines 499 s
unfolding read_lines
read_lines-step room [] s h lt = refl
read_lines-step room (c ∷ l) s h lt =
    ground (arith, read_lines-step (room - 1) l s h.1 (omega arith))

All-append :
    (k l : Bytes) → All (λ c. c ≢ b'\n') k → All (λ c. c ≢ b'\n') l → All (λ c. c ≢ b'\n') (k ++ l)
All-append [] l hk hl = hl
All-append (c ∷ k) l hk hl = (hk.0, All-append k l hk.1 hl)

-- A line that begins with a fixed text.
pub read_lines-line :
    (k l s : Bytes)
    → All (λ c. c ≢ b'\n') k
    → length k < 19
    → IsLine l
    → read_lines 499 (k ++ (l ++ b'\n' ∷ s)) ≡ (k ++ (l ++ b'\n' ∷ [])) ∷ read_lines 499 s
read_lines-line k l s hk lt h =
    let step =
      read_lines-step 499 (k ++ l) s (All-append k l hk h.no_newline)
        (omega (arith, length-append k l, h.short)) in
    rw (append_assoc k l (b'\n' ∷ s), append_assoc k l (b'\n' ∷ [])) at step

pub line_text-line :
    (k : Bytes) (c : ℕ) → All (λ b. b ≢ 0) k → c ≢ 0 → line_text (k ++ c ∷ []) ≡ k ++ c ∷ []
unfolding line_text
line_text-line [] c plain other = ground (arith, other)
line_text-line (b ∷ k) c plain other = ground (arith, plain.0, line_text-line k c plain.1 other)

All-append_zero :
    (k l : Bytes) → All (λ c. c ≢ 0) k → All (λ c. c ≢ 0) l → All (λ c. c ≢ 0) (k ++ l)
All-append_zero [] l hk hl = hl
All-append_zero (c ∷ k) l hk hl = (hk.0, All-append_zero k l hk.1 hl)

-- Such a line stays as it is.
pub line_text-IsLine :
    (k l : Bytes)
    → All (λ c. c ≢ 0) k
    → IsLine l
    → line_text (k ++ (l ++ b'\n' ∷ [])) ≡ k ++ (l ++ b'\n' ∷ [])
line_text-IsLine k l hk h =
    let whole = line_text-line (k ++ l) b'\n' (All-append_zero k l hk h.no_zero) (ground arith) in
    rw (append_assoc k l (b'\n' ∷ [])) at whole

pub file_lines-line :
    (k l s : Bytes)
    → All (λ c. c ≢ b'\n') k
    → All (λ c. c ≢ 0) k
    → length k < 19
    → IsLine l
    → file_lines (k ++ (l ++ b'\n' ∷ s)) ≡ (k ++ (l ++ b'\n' ∷ [])) ∷ file_lines s
unfolding file_lines line_texts
file_lines-line k l s hk zk short h =
    let cut = line_text-IsLine k l zk h in
    rw (read_lines-line k l s hk short h) (ap (λ t. t ∷ line_texts (read_lines 499 s)) cut)

-- The lines up to the head of eth0.
abbrev pub head_text : Bytes
head_text = codes "auto lo\niface lo inet loopback\n\nauto eth0\niface eth0 inet static\n"

abbrev pub head_lines : List Bytes
head_lines =
    codes "auto lo\n"
    ∷ codes "iface lo inet loopback\n"
    ∷ codes "\n"
    ∷ codes "auto eth0\n"
    ∷ codes "iface eth0 inet static\n"
    ∷ []

pub file_lines-head : (s : Bytes) → file_lines (head_text ++ s) ≡ head_lines ++ file_lines s
unfolding file_lines read_lines line_texts line_text
file_lines-head s = refl

word-value :
    (v t : Bytes) → All (λ c. c ≢ b'\n') v → All (λ c. c ≢ b' ') v → word (v ++ b'\n' ∷ t) ≡ v
unfolding word
word-value [] t hn hs = refl
word-value (c ∷ v) t hn hs = ground (arith, word-value v t hn.1 hs.1)

drop-key : (key : Bytes) (c : ℕ) (s : Bytes) → drop (suc (length key)) (key ++ c ∷ s) ≡ s
drop-key [] c s = refl
drop-key (k ∷ key) c s = drop-key key c s

pub value_behind-value :
    (key v : Bytes) → IsValue v → value_behind key (key ++ b' ' ∷ (v ++ b'\n' ∷ [])) ≡ done v
unfolding value_behind
value_behind-value key v h =
    let longer = length-append key (b' ' ∷ (v ++ b'\n' ∷ [])) in
    let value = word-value v [] h.line.no_newline h.no_space in
    let behind = drop-key key b' ' (v ++ b'\n' ∷ []) in rw (behind, value) (ground (arith, longer))

-- The interfaces file with a line behind the head of eth0, which `get_settings` ignores.
abbrev pub listed_text : (ignored adr mask gw rest : Bytes) → Bytes
listed_text ignored adr mask gw rest =
    head_text
    ++ (ignored
        ++ b'\n'
          ∷ (codes "  address "
              ++ (adr
                  ++ b'\n'
                    ∷ (codes "  netmask "
                        ++ (mask ++ b'\n' ∷ (codes "  gateway " ++ (gw ++ b'\n' ∷ rest)))))))
