-- ===== src/Server/Census/Going.antt =====
-- remove_source in every case that ends without an exception.
use mathlib.Core.Path.{subst}
use savate.Prelude.{
  Bool, Bool-cases, Bytes, Option, [], ap, arith, false, inl, inr, length, ltb, none, refl, some, ℕ,
  ◌+◌, ◌==◌, ◌∷◌, ◌≡◌, ◌≤◌,
}
use savate.Dict.{Dict, lookup, put, remove}
use savate.Dict.Laws.{lookup-remove}
use savate.Dict.Sums.{remove-HasOnce, sum_entries, sum_entries-put, sum_entries-remove}
use savate.Server.Routing.{Server, keys}
use savate.Server.Registry.{
  Removed, close_clients, keep_clients, raised, remove_client, remove_last, remove_source, removed,
}
use savate.Server.Census.{IsTable, having, weigh, weigh_clients, weigh_sources}
use savate.Server.Census.Arriving.{Keeps, put-IsTable}
use savate.Server.Census.Departing.{keep_clients-TakesIn, remove-IsTable, without_path}
use savate.Server.Census.Removing.{keys-remove, migrate-TakesIn}
use savate.Prelude.{bytes_eq, nat_eq}

module _ (activates : ℕ → Bool) (path_of : ℕ → Bytes) where
  -- A source without keepalive goes alone only if it has no client.
  close_clients-removed :
      (cs : Dict ℕ ℕ) (s s' : Server)
      → close_clients activates path_of cs s ≡ removed s'
      → (cs ≡ []) × (s ≡ s')
  unfolding close_clients
  close_clients-removed [] s s' h = (refl, ground (arith, h))
  close_clients-removed ((fd, client) ∷ cs) s s' h = go (remove_client path_of fd client s) refl
    where
      go :
          (o : Option Server)
          → remove_client path_of fd client s ≡ o
          → ((fd, client) ∷ cs ≡ []) × (s ≡ s')
      go none e = absurd (ground (arith, e, h))
      go (some s1) e = absurd (ground (arith, e, h))

  -- The only source of a path goes.
  remove_last-Keeps :
      (keepalive : Option ℕ) (path : Bytes) (source : ℕ) (cs : Dict ℕ ℕ) (d : Dict ℕ (Dict ℕ ℕ))
      (s s' : Server)
      → remove_last activates path_of keepalive path cs s ≡ removed s'
      → IsTable s
      → lookup path s.sources ≡ some d
      → lookup source d ≡ some cs
      → ltb 1 (length d) ≡ false
      → Keeps s s'
  unfolding remove_last
  remove_last-Keeps keepalive path source cs d s s' h t e q l = go keepalive refl
    where
      closes :
          (o : Removed)
          → close_clients activates path_of cs s ≡ o
          → (elim o [
            | raised x ↦ raised x
            | removed x ↦ removed (record x { sources = remove path x.sources })
          ])
            ≡ removed s'
          → Keeps s s'
      closes (raised x) c k = absurd (ground (arith, c, k))
      closes (removed x) c k =
          let (none_there, same) = close_clients-removed cs s x c in
          let left : record s { sources = remove path s.sources } ≡ s' = ground (arith, k, same) in
          subst (λ y. Keeps s y) left
            (record {
              weights = λ w. ground (
                arith,
                without_path w path source cs d s t e q l,
                ap (weigh_clients w) none_there,
                no_weight w,
              );
              table = remove-IsTable path s t;
              count = refl;
            })
        where
          no_weight : (w : ℕ → ℕ) → weigh_clients w [] ≡ 0
          no_weight w = unfold sum_entries in refl

      go : (k : Option ℕ) → keepalive ≡ k → Keeps s s'
      go none p = closes (close_clients activates path_of cs s) refl (ground (arith, p, h))
      go (some n) p = elim (Bool-cases (n == 0)) [
        | inl z ↦ closes (close_clients activates path_of cs s) refl (ground (arith, p, z, h))
        | inr z ↦
            let s0 = keep_clients path cs s in
            let (x, same) = keep_clients-TakesIn path cs s t in
            let s1 : Server = record s0 {
              keepalive_timeouts = put path tt s0.keepalive_timeouts;
              sources = remove path s0.sources;
            } in
            let left : s1 ≡ s' = ground (arith, p, z, h) in
            let v = remove-IsTable path s0 x.table in
            subst (λ y. Keeps s y) left
              (record {
                weights = λ w. ground (
                  arith,
                  x.weights w,
                  without_path w path source cs d s0 x.table (ground (arith, same, e)) q l,
                );
                table = record {
                  paths = v.paths;
                  tables = v.tables;
                  clients = v.clients;
                  kept = v.kept;
                };
                count = x.count;
              })
      ]

  -- A source that goes without an exception.
  pub remove_source-Keeps :
      (keepalive : Option ℕ) (source : ℕ) (s s' : Server)
      → remove_source activates path_of keepalive source s ≡ removed s'
      → IsTable s
      → ((f : ℕ) → weigh (having f) s ≤ 1)
      → Keeps s s'
  unfolding remove_source
  remove_source-Keeps keepalive source s s' h t once = go (lookup (path_of source) s.sources) refl
    where
      go : (o : Option (Dict ℕ (Dict ℕ ℕ))) → lookup (path_of source) s.sources ≡ o → Keeps s s'
      go none e = absurd (ground (arith, e, h))
      go (some d) e = at (lookup source d) refl
        where
          at : (o : Option (Dict ℕ ℕ)) → lookup source d ≡ o → Keeps s s'
          at none q = absurd (ground (arith, e, q, h))
          at (some cs) q = elim (Bool-cases (ltb 1 (length d))) [
            | inl l ↦
                let path = path_of source in
                let others = remove source d in
                let s0 : Server = record s { sources = put path others s.sources } in
                let weights : (w : ℕ → ℕ) → weigh w s0 + weigh_clients w cs ≡ weigh w s = λ w.
                  ground (
                    arith,
                    e,
                    q,
                    sum_entries-put (λ (p : Bytes) x. weigh_sources w x) path others s.sources,
                    sum_entries-remove (λ (j : ℕ) x. weigh_clients w x) source d
                        (t.tables path d e),
                  ) in
                let t0 : IsTable s0 =
                  put-IsTable path others s s0 refl t.kept
                    (remove-HasOnce source d (t.tables path d e))
                    (λ j x p. t.clients path d j x e (ground (arith, p, lookup-remove source j d)))
                    t in
                let x =
                  migrate-TakesIn activates path (keys others) [] cs s0 s'
                    (keys-remove source d (t.tables path d e) l) (ground (arith, e, q, l, h)) t0
                    (λ f. ground (arith, weights (having f), once f)) in
                record {
                  weights = λ w. ground (arith, x.weights w, weights w);
                  table = x.table;
                  count = x.count;
                }
            | inr l ↦
                remove_last-Keeps keepalive (path_of source) source cs d s s'
                  (ground (arith, e, q, l, h)) t e q l
          ]
