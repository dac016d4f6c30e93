-- ===== src/Dict.antt =====
-- Python's `dict`, in insertion order, over any keys with an equality. A key that is written again
-- keeps its place; `popitem` takes the entry that was inserted last.
pub mod Laws
pub mod Sums
use savate.Prelude.{Bool, Eq, List, Option, [], false, if◌then◌else◌, none, some, true, ◌∷◌}

abbrev pub Dict {ℓ κ} : Type ℓ → Type κ → Type (ℓ ⊔ κ)
Dict K V = List (K × V)

module _ {ℓ κ} {K : Type ℓ} {V : Type κ} ⦃e : Eq K⦄ where
  -- d.get(k)
  unfoldable pub lookup : K → Dict K V → Option V
  lookup k [] = none
  lookup k ((j, v) ∷ d) = if e.beq j k then some v else lookup k d

  -- k in d
  abbrev pub has : K → Dict K V → Bool
  has k d = elim (lookup k d) [ none ↦ false | some v ↦ true ]

  -- d[k] = v
  unfoldable pub put : K → V → Dict K V → Dict K V
  put k v [] = (k, v) ∷ []
  put k v ((j, w) ∷ d) = if e.beq j k then (j, v) ∷ d else (j, w) ∷ put k v d

  -- d.pop(k, None); a literal dict holds a key once, so every entry of it may go
  unfoldable pub remove : K → Dict K V → Dict K V
  remove k [] = []
  remove k ((j, v) ∷ d) = let rest = remove k d in if e.beq j k then rest else (j, v) ∷ rest

-- d.popitem(): the entry inserted last, and the others.
unfoldable pub pop_last {ℓ} : {A : Type ℓ} → A → List A → List A × A
pop_last a [] = ([], a)
pop_last a (b ∷ bs) = let (front, l) = pop_last b bs in (a ∷ front, l)
