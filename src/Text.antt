-- ===== src/Text.antt =====
-- Python's methods on text that the program uses, over lists of character codes.
pub mod Laws
use savate.Prelude.{
  Bool, Bytes, Option, [], false, if◌then◌else◌, none, some, true, ℕ, ◌&&◌, ◌==◌, ◌||◌, ◌∷◌,
}

-- s.startswith(prefix)
unfoldable pub starts_with : Bytes → Bytes → Bool
starts_with [] s = true
starts_with (p ∷ ps) [] = false
starts_with (p ∷ ps) (c ∷ s) = p == c && starts_with ps s

-- c in s
unfoldable pub contains : ℕ → Bytes → Bool
contains c [] = false
contains c (d ∷ s) = d == c || contains c s

-- s.lstrip(chars)
unfoldable pub lstrip : Bytes → Bytes → Bytes
lstrip chars [] = []
lstrip chars (c ∷ s) = let rest = lstrip chars s in if contains c chars then rest else c ∷ s

-- s.split(c, 1), where `c` occurs
unfoldable pub split_once : ℕ → Bytes → Option (Bytes × Bytes)
split_once c [] = none
split_once c (d ∷ s) =
    if d == c
    then some ([], s)
    else (elim (split_once c s) [ none ↦ none | some (a, b) ↦ some (d ∷ a, b) ])
