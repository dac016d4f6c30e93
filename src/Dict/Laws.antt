-- ===== src/Dict/Laws.antt =====
-- Laws of dictionaries in the form of `if`, without side conditions.
use savate.Prelude.{
  Eq, [], arith, if◌then◌else◌, length, none, refl, some, true, ◌<◌, ◌∷◌, ◌≡◌, ◌≤◌,
}
use savate.Dict.{Dict, has, lookup, put, remove}

module _ {ℓ κ} {K : Type ℓ} {V : Type κ} ⦃e : Eq K⦄ where
  pub lookup-put :
      (k j : K) (v : V) (d : Dict K V)
      → lookup j (put k v d) ≡ (if e.beq k j then some v else lookup j d)
  unfolding lookup put
  lookup-put k j v [] = refl
  lookup-put k j v ((i, w) ∷ d) =
      ground (arith, e.beq_iff k j, e.beq_iff i k, e.beq_iff i j, lookup-put k j v d)

  pub lookup-remove :
      (k j : K) (d : Dict K V) → lookup j (remove k d) ≡ (if e.beq k j then none else lookup j d)
  unfolding lookup remove
  lookup-remove k j [] = ground arith
  lookup-remove k j ((i, w) ∷ d) =
      ground (arith, e.beq_iff k j, e.beq_iff i k, e.beq_iff i j, lookup-remove k j d)

  pub length-remove : (k : K) (d : Dict K V) → length (remove k d) ≤ length d
  unfolding remove
  length-remove k [] = omega arith
  length-remove k ((i, w) ∷ d) = ground (arith, length-remove k d)

  -- Removing a key that is there makes the dictionary smaller.
  pub length-remove_lt : (k : K) (d : Dict K V) → has k d ≡ true → length (remove k d) < length d
  unfolding remove lookup
  length-remove_lt k [] h = cc
  length-remove_lt k ((i, w) ∷ d) h = ground (arith, length-remove_lt k d, length-remove k d)

pub beq_refl {ℓ} : {K : Type ℓ} ⦃e : Eq K⦄ (k : K) → e.beq k k ≡ true
beq_refl ⦃e⦄ k = (e.beq_iff k k).1 refl

pub lookup-nil {ℓ κ} : {K : Type ℓ} {V : Type κ} ⦃e : Eq K⦄ (k : K) → lookup {V = V} k [] ≡ none
unfolding lookup
lookup-nil k = refl
