-- ===== src/Base/Text.antt =====
-- The functions of the C library that search a string.
use Prim.Native.Nat.{ℕ}
use mathlib.Core.Bool.{Bool, true, false}
use mathlib.Core.List.{List, [], ◌∷◌, ◌++◌}
use mathlib.Core.Option.{Option, none, some}
use lielas.Base.Tests.{◌==◌, if◌then◌else◌}

-- `strncmp(p, s, strlen(p)) == 0`
unfoldable pub starts_with : List ℕ → List ℕ → Bool
starts_with [] s = true
starts_with (p ∷ ps) [] = false
starts_with (p ∷ ps) (c ∷ s) = if p == c then starts_with ps s else false

-- `strchr`: the text from the first such byte on.
unfoldable pub find_char : ℕ → List ℕ → Option (List ℕ)
find_char c [] = none
find_char c (x ∷ s) = if x == c then some (x ∷ s) else find_char c s

-- `strstr`, for a text that is not empty.
unfoldable pub find_str : List ℕ → List ℕ → Option (List ℕ)
find_str p [] = none
find_str p (x ∷ s) = if starts_with p (x ∷ s) then some (x ∷ s) else find_str p s

-- Texts one behind another.
abbrev pub texts : List (List ℕ) → List ℕ
texts [] = []
texts (t ∷ ts) = t ++ texts ts
