-- ===== src/Server/Census/Arriving.antt =====
-- savate/server.py: a new source and the kept clients of its path, by weight.
use mathlib.Core.Path.{subst}
use savate.Prelude.{
  Bool-cases, Bytes, List, Option, [], ap, arith, inl, inr, none, refl, same_bytes, some, sym, ℕ,
  ◌+◌, ◌==◌, ◌∙◌, ◌∷◌, ◌≡◌, ◌≤◌,
}
use savate.Dict.{Dict, lookup, put, remove}
use savate.Dict.Laws.{lookup-nil, lookup-put}
use savate.Dict.Sums.{
  HasOnce, put-HasOnce, remove-HasOnce, share, sum_entries, sum_entries-put, sum_entries-remove,
}
use savate.Server.Routing.{Kept, Server, attach, get_kept, get_sources, register_source, set_source}
use savate.Server.Census.{IsTable, having, weigh, weigh_clients, weigh_kept, weigh_sources}
use savate.Server.Census.Tables.{share-le}
use savate.Server.Census.Joining.{attach-HasOnce, weigh-attach}
use savate.Prelude.{bytes_eq, nat_eq}

-- The tables of a path put in, and the kept clients of some paths taken away.
pub put-IsTable :
    (path : Bytes) (t : Dict ℕ (Dict ℕ ℕ)) (s s' : Server)
    → s'.sources ≡ put path t s.sources
    → HasOnce s'.keepalived
    → HasOnce t
    → ((j : ℕ) (cs : Dict ℕ ℕ) → lookup j t ≡ some cs → HasOnce cs)
    → IsTable s
    → IsTable s'
put-IsTable path t s s' e k h all v = record {
  paths = subst (λ x. HasOnce x) (sym e) (put-HasOnce path t s.sources v.paths);
  tables = λ p d q. elim (Bool-cases (same_bytes path p)) [
    | inl m ↦
        let same : t ≡ d = ground (arith, e, m, q, lookup-put path p t s.sources) in
        subst (λ x. HasOnce x) same h
    | inr m ↦ v.tables p d (ground (arith, e, m, q, lookup-put path p t s.sources))
  ];
  clients = λ p d j cs q r. elim (Bool-cases (same_bytes path p)) [
    | inl m ↦
        let same : t ≡ d = ground (arith, e, m, q, lookup-put path p t s.sources) in
        all j cs (ap (λ x. lookup j x) same ∙ r)
    | inr m ↦ v.clients p d j cs (ground (arith, e, m, q, lookup-put path p t s.sources)) r
  ];
  kept = k;
}

-- What moves of clients leave as it was.
pub record Keeps (s s' : Server) : Type 0 where
  pub weights : (w : ℕ → ℕ) → weigh w s' ≡ weigh w s
  pub table : IsTable s'
  pub count : s'.clients_connected ≡ s.clients_connected

weigh_kept-nil : (w : ℕ → ℕ) → weigh_kept w [] ≡ 0
unfolding weigh_kept
weigh_kept-nil w = refl

pub weigh_kept-get_kept :
    (w : ℕ → ℕ) (path : Bytes) (s : Server)
    → weigh_kept w (get_kept path s)
      ≡ share (λ (p : Bytes) ks. weigh_kept w ks) path (lookup path s.keepalived)
unfolding get_kept weigh_kept
weigh_kept-get_kept w path s = go (lookup path s.keepalived) refl
  where
    go :
        (o : Option (List Kept))
        → lookup path s.keepalived ≡ o
        → weigh_kept w (get_kept path s)
          ≡ share (λ (p : Bytes) ks. weigh_kept w ks) path (lookup path s.keepalived)
    go none e = ground (arith, e)
    go (some ks) e = ground (arith, e)

weigh_sources-get_sources :
    (w : ℕ → ℕ) (path : Bytes) (s : Server)
    → weigh_sources w (get_sources path s)
      ≡ share (λ (p : Bytes) d. weigh_sources w d) path (lookup path s.sources)
unfolding get_sources sum_entries
weigh_sources-get_sources w path s = ground arith

get_sources-HasOnce : (path : Bytes) (s : Server) → IsTable s → HasOnce (get_sources path s)
unfolding get_sources
get_sources-HasOnce path s t = go (lookup path s.sources) refl
  where
    go : (o : Option (Dict ℕ (Dict ℕ ℕ))) → lookup path s.sources ≡ o → HasOnce (get_sources path s)
    go none e = rw (get_sources, e) tt
    go (some d) e = rw (get_sources, e) (t.tables path d e)

get_sources-clients :
    (path : Bytes) (s : Server) (j : ℕ) (cs : Dict ℕ ℕ)
    → IsTable s
    → lookup j (get_sources path s) ≡ some cs
    → HasOnce cs
unfolding get_sources
get_sources-clients path s j cs t q = go (lookup path s.sources) refl
  where
    go : (o : Option (Dict ℕ (Dict ℕ ℕ))) → lookup path s.sources ≡ o → HasOnce cs
    go none e = absurd (ground (arith, e, q, lookup-nil {V = Dict ℕ ℕ} j))
    go (some d) e = t.clients path d j cs e (ground (arith, e, q))

pub register_source-Keeps :
    (source : ℕ) (path : Bytes) (s : Server)
    → IsTable s
    → ((f : ℕ) → weigh (having f) s ≤ 1)
    → lookup source (get_sources path s) ≡ none
    → Keeps s (register_source source path s)
unfolding register_source
register_source-Keeps source path s t once new = go (get_kept path s) refl
  where
    kept_once : (f : ℕ) → weigh_clients (having f) [] + weigh_kept (having f) (get_kept path s) ≤ 1
    kept_once f =
        unfold sum_entries in
        ground (
          arith,
          once f,
          weigh_kept-get_kept (having f) path s,
          share-le (λ (p : Bytes) ks. weigh_kept (having f) ks) path s.keepalived,
        )

    cs : Dict ℕ ℕ
    cs = attach (get_kept path s) []

    table : Dict ℕ (Dict ℕ ℕ)
    table = put source cs (get_sources path s)

    table_weight :
        (w : ℕ → ℕ)
        → weigh_sources w table
          ≡ weigh_sources w (get_sources path s) + weigh_kept w (get_kept path s)
    table_weight w =
        unfold sum_entries in
        ground (
          arith,
          new,
          weigh-attach w (get_kept path s) [] kept_once,
          sum_entries-put (λ (j : ℕ) x. weigh_clients w x) source cs (get_sources path s),
        )

    table_clients : (j : ℕ) (x : Dict ℕ ℕ) → lookup j table ≡ some x → HasOnce x
    table_clients j x q = elim (Bool-cases (source == j)) [
      | inl n ↦
          let same : cs ≡ x = ground (arith, n, q, lookup-put source j cs (get_sources path s)) in
          subst (λ y. HasOnce y) same (attach-HasOnce (get_kept path s) [] tt)
      | inr n ↦
          get_sources-clients path s j x t
            (ground (arith, n, q, lookup-put source j cs (get_sources path s)))
    ]

    table_once : HasOnce table
    table_once = put-HasOnce source cs (get_sources path s) (get_sources-HasOnce path s t)

    go : (ks : List Kept) → get_kept path s ≡ ks → Keeps s (register_source source path s)
    go [] e =
        let s' : Server = record s { sources = put path table s.sources } in
        let same : s' ≡ register_source source path s = ground (arith, e) in
        subst (λ x. Keeps s x) same
          (record {
            weights = λ w. ground (
              arith,
              table_weight w,
              weigh_sources-get_sources w path s,
              sum_entries-put (λ (p : Bytes) d. weigh_sources w d) path table s.sources,
              ap (weigh_kept w) e,
              weigh_kept-nil w,
            );
            table = put-IsTable path table s s' refl t.kept table_once table_clients t;
            count = refl;
          })
    go (k ∷ ks) e =
        let s' : Server = record s {
          sources = put path table s.sources;
          client_source = set_source source (k ∷ ks) s.client_source;
          keepalived = remove path s.keepalived;
          keepalive_timeouts = remove path s.keepalive_timeouts;
        } in
        let same : s' ≡ register_source source path s = ground (arith, e) in
        subst (λ x. Keeps s x) same
          (record {
            weights = λ w. ground (
              arith,
              table_weight w,
              weigh_sources-get_sources w path s,
              weigh_kept-get_kept w path s,
              sum_entries-put (λ (p : Bytes) d. weigh_sources w d) path table s.sources,
              sum_entries-remove (λ (p : Bytes) ks. weigh_kept w ks) path s.keepalived t.kept,
            );
            table =
                put-IsTable path table s s' refl (remove-HasOnce path s.keepalived t.kept)
                  table_once table_clients t;
            count = refl;
          })
