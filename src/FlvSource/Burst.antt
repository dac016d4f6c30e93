-- ===== src/FlvSource/Burst.antt =====
-- savate/flv_source.py: the deques of groups that a burst for a new client is taken from.
use savate.Prelude.{List, [], ap, inl, inr, map, refl, ℕ, ◌++◌, ◌+◌, ◌∷◌, ◌≡◌, ◌≢◌, ◌≤◌, ◌⊎◌}
use savate.BinaryParser.{Parsed, parsed, refused}
use savate.Flv.{FlvTag}
use savate.FlvSource.{
  Result, binary_parser, burst_duration, err, group_data, index_error, of_parsed, ok, out_of_fuel,
  ◌>>=◌,
}

-- The result satisfies `P`, or is an error other than IndexError.
abbrev pub Fine : {A : Type 0} → (A → Type 0) → Result A → Type 0
Fine P (ok a) = P a
Fine P (err index_error) = ⊥
Fine P (err (binary_parser e)) = Unit
Fine P (err out_of_fuel) = Unit

pub Fine-bind :
    {A B : Type 0} (P : A → Type 0) (Q : B → Type 0) (m : Result A) (f : A → Result B)
    → Fine P m
    → ((a : A) → P a → Fine Q (f a))
    → Fine Q (m >>= f)
Fine-bind P Q (ok a) f h k = k a h
Fine-bind P Q (err index_error) f h k = absurd h
Fine-bind P Q (err (binary_parser e)) f h k = tt
Fine-bind P Q (err out_of_fuel) f h k = tt

pub Fine-map :
    {A : Type 0} (P Q : A → Type 0) (m : Result A) → Fine P m → ((a : A) → P a → Q a) → Fine Q m
Fine-map P Q (ok a) h k = k a h
Fine-map P Q (err index_error) h k = absurd h
Fine-map P Q (err (binary_parser e)) h k = tt
Fine-map P Q (err out_of_fuel) h k = tt

pub Fine-of_ne :
    {A : Type 0} (P : A → Type 0) (m : Result A)
    → m ≢ err index_error
    → ((a : A) → m ≡ ok a → P a)
    → Fine P m
Fine-of_ne P (ok a) h k = k a refl
Fine-of_ne P (err index_error) h k = h refl
Fine-of_ne P (err (binary_parser e)) h k = tt
Fine-of_ne P (err out_of_fuel) h k = tt

pub of_parsed-ne-index_error : {A : Type 0} (r : Parsed A) → of_parsed r ≢ err index_error
of_parsed-ne-index_error (parsed a) = λ q. cc
of_parsed-ne-index_error (refused e) = λ q. cc

pub Fine-of_parsed : {A : Type 0} (r : Parsed A) → Fine (λ a. Unit) (of_parsed r)
Fine-of_parsed (parsed a) = tt
Fine-of_parsed (refused e) = tt

abbrev pub AllFilled : List (List FlvTag) → Type 0
AllFilled [] = Unit
AllFilled (g ∷ gs) = (g ≢ []) × AllFilled gs

-- All groups but the first hold a tag.
abbrev pub TailFilled : List (List FlvTag) → Type 0
TailFilled [] = Unit
TailFilled (g ∷ gs) = AllFilled gs

-- The second group of several begins at most `BURST_DURATION` before `t`.
abbrev pub InWindow : ℕ → List (List FlvTag) → Type 0
InWindow t (g₀ ∷ (u ∷ g₁) ∷ gs) = t ≤ u.timestamp + burst_duration
InWindow t _ = Unit

pub AllFilled-append_one :
    (gs : List (List FlvTag)) (g : List FlvTag) → AllFilled gs → g ≢ [] → AllFilled (gs ++ g ∷ [])
AllFilled-append_one [] g h k = (k, tt)
AllFilled-append_one (a ∷ gs) g h k = (h.0, AllFilled-append_one gs g h.1 k)

pub TailFilled-append_one :
    (gs : List (List FlvTag)) (g : List FlvTag)
    → TailFilled gs
    → (gs ≡ []) ⊎ (g ≢ [])
    → TailFilled (gs ++ g ∷ [])
TailFilled-append_one [] g h k = tt
TailFilled-append_one (a ∷ gs) g h (inl e) = cc
TailFilled-append_one (a ∷ gs) g h (inr k) = AllFilled-append_one gs g h k

pub map-append_one :
    (gs : List (List FlvTag)) (g : List FlvTag)
    → map group_data (gs ++ g ∷ []) ≡ map group_data gs ++ group_data g ∷ []
map-append_one [] g = refl
map-append_one (a ∷ gs) g = ap (λ l. group_data a ∷ l) (map-append_one gs g)
