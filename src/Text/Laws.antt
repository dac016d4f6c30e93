-- ===== src/Text/Laws.antt =====
-- Laws of the text methods.
use savate.Prelude.{Bytes, [], arith, false, refl, some, ℕ, ◌++◌, ◌||◌, ◌∷◌, ◌≡◌}
use savate.Text.{contains, split_once}

-- A text is cut at the first `c`.
pub split_once-append :
    (c : ℕ) (a b : Bytes) → contains c a ≡ false → split_once c (a ++ c ∷ b) ≡ some (a, b)
unfolding split_once contains
split_once-append c [] b h = ground arith
split_once-append c (d ∷ a) b h = ground (arith, split_once-append c a b)

pub contains-append : (c : ℕ) (a b : Bytes) → contains c (a ++ b) ≡ contains c a || contains c b
unfolding contains
contains-append c [] b = refl
contains-append c (d ∷ a) b = ground (arith, contains-append c a b)
