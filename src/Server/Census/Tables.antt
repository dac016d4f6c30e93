-- ===== src/Server/Census/Tables.antt =====
-- A table of clients that is put in place of another.
use mathlib.Core.Path.{subst}
use savate.Prelude.{
  Bool-cases, Bytes, Eq, Option, [], ap, arith, inl, inr, none, refl, same_bytes, some, ℕ, ◌+◌,
  ◌==◌, ◌∙◌, ◌∷◌, ◌≡◌, ◌≤◌,
}
use savate.Dict.{Dict, lookup, put}
use savate.Dict.Laws.{lookup-put}
use savate.Dict.Sums.{HasOnce, put-HasOnce, share, sum_entries, sum_entries-put}
use savate.Server.Routing.{Server}
use savate.Server.Census.{IsTable, having, weigh, weigh_clients, weigh_sources}
use savate.Prelude.{bytes_eq, nat_eq}

-- The server with a table put in.
abbrev pub with_table : Bytes → ℕ → Dict ℕ ℕ → Dict ℕ (Dict ℕ ℕ) → Server → Server
with_table path source cs d s = record s { sources = put path (put source cs d) s.sources }

pub weigh-with_table :
    (w : ℕ → ℕ) (path : Bytes) (source : ℕ) (cs old : Dict ℕ ℕ) (d : Dict ℕ (Dict ℕ ℕ)) (s : Server)
    → lookup path s.sources ≡ some d
    → lookup source d ≡ some old
    → weigh w (with_table path source cs d s) + weigh_clients w old ≡ weigh w s + weigh_clients w cs
weigh-with_table w path source cs old d s e q = ground (
  arith,
  e,
  q,
  sum_entries-put (λ p t. weigh_sources w t) path (put source cs d) s.sources,
  sum_entries-put (λ j t. weigh_clients w t) source cs d,
)

pub with_table-IsTable :
    (path : Bytes) (source : ℕ) (cs : Dict ℕ ℕ) (d : Dict ℕ (Dict ℕ ℕ)) (s : Server)
    → lookup path s.sources ≡ some d
    → HasOnce cs
    → IsTable s
    → IsTable (with_table path source cs d s)
with_table-IsTable path source cs d s e h t = record {
  paths = put-HasOnce path (put source cs d) s.sources t.paths;
  tables = λ p d1 q. elim (Bool-cases (same_bytes path p)) [
    | inl m ↦
        let same : put source cs d ≡ d1 =
          ground (arith, m, q, lookup-put path p (put source cs d) s.sources) in
        subst (λ x. HasOnce x) same (put-HasOnce source cs d (t.tables path d e))
    | inr m ↦ t.tables p d1 (ground (arith, m, q, lookup-put path p (put source cs d) s.sources))
  ];
  clients = λ p d1 j cs1 q r. elim (Bool-cases (same_bytes path p)) [
    | inl m ↦
        let same : put source cs d ≡ d1 =
          ground (arith, m, q, lookup-put path p (put source cs d) s.sources) in
        let r' : lookup j (put source cs d) ≡ some cs1 = ap (λ x. lookup j x) same ∙ r in
        elim (Bool-cases (source == j)) [
          | inl n ↦
              let these : cs ≡ cs1 = ground (arith, n, r', lookup-put source j cs d) in
              subst (λ x. HasOnce x) these h
          | inr n ↦ t.clients path d j cs1 e (ground (arith, n, r', lookup-put source j cs d))
        ]
    | inr m ↦
        t.clients p d1 j cs1 (ground (arith, m, q, lookup-put path p (put source cs d) s.sources)) r
  ];
  kept = t.kept;
}

-- What is in a table is on the server.
pub share-le :
    {K V : Type 0} ⦃e : Eq K⦄ (w : K → V → ℕ) (k : K) (d : Dict K V)
    → share w k (lookup k d) ≤ sum_entries w d
unfolding sum_entries lookup
share-le ⦃e⦄ w k [] = omega arith
share-le ⦃e⦄ w k ((j, u) ∷ d) = ground (arith, e.beq_iff j k, share-le w k d)

pub weigh_clients-le :
    (w : ℕ → ℕ) (path : Bytes) (source : ℕ) (cs : Dict ℕ ℕ) (d : Dict ℕ (Dict ℕ ℕ)) (s : Server)
    → lookup path s.sources ≡ some d
    → lookup source d ≡ some cs
    → weigh_clients w cs ≤ weigh w s
weigh_clients-le w path source cs d s e q = ground (
  arith,
  e,
  q,
  share-le (λ p t. weigh_sources w t) path s.sources,
  share-le (λ j t. weigh_clients w t) source d,
)

-- A descriptor that is not on the server is in no table.
pub fresh-absent :
    (fd : ℕ) (path : Bytes) (source : ℕ) (cs : Dict ℕ ℕ) (d : Dict ℕ (Dict ℕ ℕ)) (s : Server)
    → lookup path s.sources ≡ some d
    → lookup source d ≡ some cs
    → weigh (having fd) s ≡ 0
    → lookup fd cs ≡ none
fresh-absent fd path source cs d s e q h = go (lookup fd cs) refl
  where
    go : (o : Option ℕ) → lookup fd cs ≡ o → lookup fd cs ≡ none
    go none p = p
    go (some c) p = absurd (
        ground (
          arith,
          p,
          h,
          weigh_clients-le (having fd) path source cs d s e q,
          share-le (λ g (c : ℕ). having fd g) fd cs,
        ))
