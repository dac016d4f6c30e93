-- ===== src/Dict/Sums.antt =====
-- Sums over the entries of a dictionary.
use savate.Prelude.{Bool-cases, Eq, Option, [], arith, inl, inr, none, refl, some, ℕ, ◌+◌, ◌∷◌, ◌≡◌}
use savate.Dict.{Dict, lookup, put, remove}
use savate.Dict.Laws.{lookup-put, lookup-remove}

module _ {K V : Type 0} ⦃e : Eq K⦄ where
  -- Each key stands once.
  abbrev pub HasOnce : Dict K V → Type 0
  HasOnce [] = Unit
  HasOnce ((k, v) ∷ d) = (lookup k d ≡ none) × HasOnce d

  unfoldable pub sum_entries : (K → V → ℕ) → Dict K V → ℕ
  sum_entries w [] = 0
  sum_entries w ((k, v) ∷ d) = w k v + sum_entries w d

  -- The share of an entry, or of none.
  abbrev pub share : (K → V → ℕ) → K → Option V → ℕ
  share w k none = 0
  share w k (some v) = w k v

  pub sum_entries-put :
      (w : K → V → ℕ) (k : K) (v : V) (d : Dict K V)
      → sum_entries w (put k v d) + share w k (lookup k d) ≡ sum_entries w d + w k v
  unfolding sum_entries put lookup
  sum_entries-put w k v [] = omega arith
  sum_entries-put w k v ((j, u) ∷ d) = ground (arith, e.beq_iff j k, sum_entries-put w k v d)

  pub remove-absent : (k : K) (d : Dict K V) → lookup k d ≡ none → remove k d ≡ d
  unfolding remove lookup
  remove-absent k [] h = refl
  remove-absent k ((j, u) ∷ d) h = ground (arith, h, remove-absent k d)

  pub sum_entries-remove :
      (w : K → V → ℕ) (k : K) (d : Dict K V)
      → HasOnce d
      → sum_entries w (remove k d) + share w k (lookup k d) ≡ sum_entries w d
  unfolding sum_entries remove lookup
  sum_entries-remove w k [] h = refl
  sum_entries-remove w k ((j, u) ∷ d) (a, h) =
      ground (arith, e.beq_iff j k, sum_entries-remove w k d h, remove-absent j d a, a)

  pub put-HasOnce : (k : K) (v : V) (d : Dict K V) → HasOnce d → HasOnce (put k v d)
  unfolding put
  put-HasOnce k v [] h = (unfold lookup in refl, tt)
  put-HasOnce k v ((j, u) ∷ d) (a, h) = elim (Bool-cases (e.beq j k)) [
    | inl q ↦ rw q (a, h)
    | inr q ↦ rw q (
      ground (arith, a, q, lookup-put k j v d, e.beq_iff j k, e.beq_iff k j),
      put-HasOnce k v d h,
    )
  ]

  pub remove-HasOnce : (k : K) (d : Dict K V) → HasOnce d → HasOnce (remove k d)
  unfolding remove
  remove-HasOnce k [] h = tt
  remove-HasOnce k ((j, u) ∷ d) (a, h) = elim (Bool-cases (e.beq j k)) [
    | inl q ↦ rw q (remove-HasOnce k d h)
    | inr q ↦ rw q (ground (arith, a, q, lookup-remove k j d), remove-HasOnce k d h)
  ]
