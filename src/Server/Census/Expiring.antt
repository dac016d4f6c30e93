-- ===== src/Server/Census/Expiring.antt =====
-- savate/server.py: the keepalive of a path that expires, by weight.
use mathlib.Core.Path.{subst}
use savate.Prelude.{
  Bytes, List, Option, [], ap, arith, none, refl, some, sym, ℕ, ◌+◌, ◌-◌, ◌∷◌, ◌≡◌, ◌≤◌,
}
use savate.Dict.{lookup, remove}
use savate.Dict.Sums.{remove-HasOnce, sum_entries-remove}
use savate.Server.Routing.{Kept, Server, get_kept}
use savate.Server.Registry.{close_kept, expire_keepalive, remove_client}
use savate.Server.Census.{IsTable, each, having, weigh, weigh_kept, weigh_paths, weigh_waiting}
use savate.Server.Census.Tables.{share-le}
use savate.Server.Census.Arriving.{weigh_kept-get_kept}
use savate.Server.Census.Leaving.{remove_client-Leaves}
use savate.Prelude.{bytes_eq, nat_eq}

-- What closing the clients that are kept does.
record Closes (ks : List Kept) (s s' : Server) : Type 0 where
  tables : s'.sources ≡ s.sources
  waiting : s'.keepalived ≡ s.keepalived
  count : s'.clients_connected ≡ s.clients_connected - weigh_kept each ks

module _ (path_of : ℕ → Bytes) where
  -- A client that is kept is closed without a source, since its descriptor is in no table.
  remove_client-kept :
      (k : Kept) (ks : List Kept) (s s1 : Server)
      → remove_client path_of k.fd k.client s ≡ some s1
      → IsTable s
      → ((f : ℕ) → weigh (having f) s ≤ 1)
      → ((f : ℕ) → weigh_kept (having f) (k ∷ ks) ≤ weigh_waiting (having f) s.keepalived)
      → record s { clients_connected = s.clients_connected - 1 } ≡ s1
  unfolding remove_client
  remove_client-kept k ks s s1 h t once there = go (lookup k.client s.client_source) refl
    where
      go :
          (o : Option ℕ)
          → lookup k.client s.client_source ≡ o
          → record s { clients_connected = s.clients_connected - 1 } ≡ s1
      go none e = ground (arith, e, h)
      go (some source) e =
          let x = remove_client-Leaves path_of k.fd k.client source s s1 e h t in
          absurd (
            unfold weigh_kept in
            ground (
              arith,
              there k.fd,
              once k.fd,
              x.weights (having k.fd),
              ap (weigh_waiting (having k.fd)) x.waiting,
            ))

  close_kept-Closes :
      (ks : List Kept) (s s' : Server)
      → close_kept path_of ks s ≡ some s'
      → IsTable s
      → ((f : ℕ) → weigh (having f) s ≤ 1)
      → ((f : ℕ) → weigh_kept (having f) ks ≤ weigh_waiting (having f) s.keepalived)
      → Closes ks s s'
  unfolding close_kept weigh_kept
  close_kept-Closes [] s s' h t once there =
      let same : s ≡ s' = ground (arith, h) in
      subst (λ x. Closes [] s x) same
        (record { tables = refl; waiting = refl; count = omega arith })
  close_kept-Closes (k ∷ ks) s s' h t once there =
      go (remove_client path_of k.fd k.client s) refl (λ x. close_kept-Closes ks x s')
    where
      Ih : Type 0
      Ih =
          (x : Server)
          → close_kept path_of ks x ≡ some s'
          → IsTable x
          → ((f : ℕ) → weigh (having f) x ≤ 1)
          → ((f : ℕ) → weigh_kept (having f) ks ≤ weigh_waiting (having f) x.keepalived)
          → Closes ks x s'

      go :
          (o : Option Server)
          → remove_client path_of k.fd k.client s ≡ o
          → Ih
          → Closes (k ∷ ks) s s'
      go none e ih = absurd (ground (arith, e, h))
      go (some s1) e ih =
          let left : Server = record s { clients_connected = s.clients_connected - 1 } in
          let same : left ≡ s1 = remove_client-kept k ks s s1 e t once there in
          let tn : IsTable left = record {
            paths = t.paths;
            tables = t.tables;
            clients = t.clients;
            kept = t.kept;
          } in
          let x = ih left (ground (arith, e, h, same)) tn once (λ f. ground (arith, there f)) in
          record { tables = x.tables; waiting = x.waiting; count = ground (arith, x.count) }

  -- What the end of a keepalive does.
  pub record Expires (s s' : Server) : Type 0 where
    pub table : IsTable s'
    pub gone : ℕ
    pub weights : weigh each s' + gone ≡ weigh each s
    pub fewer : (w : ℕ → ℕ) → weigh w s' ≤ weigh w s
    pub count : s'.clients_connected ≡ s.clients_connected - gone

  pub expire_keepalive-Expires :
      (path : Bytes) (s s' : Server)
      → expire_keepalive path_of path s ≡ some s'
      → IsTable s
      → ((f : ℕ) → weigh (having f) s ≤ 1)
      → Expires s s'
  unfolding expire_keepalive
  expire_keepalive-Expires path s s' h t once = go (close_kept path_of (get_kept path s) s) refl
    where
      go : (o : Option Server) → close_kept path_of (get_kept path s) s ≡ o → Expires s s'
      go none e = absurd (ground (arith, e, h))
      go (some s1) e =
          let x = close_kept-Closes (get_kept path s) s s1 e t once (λ f. ground (
            arith,
            weigh_kept-get_kept (having f) path s,
            share-le (λ (p : Bytes) l. weigh_kept (having f) l) path s.keepalived,
          )) in
          let left : Server = record s1 {
            keepalived = remove path s1.keepalived;
            keepalive_timeouts = remove path s1.keepalive_timeouts;
          } in
          let same : left ≡ s' = ground (arith, e, h) in
          let weights : (w : ℕ → ℕ) → weigh w left + weigh_kept w (get_kept path s) ≡ weigh w s =
            λ w. ground (
              arith,
              ap (weigh_paths w) x.tables,
              ap (λ k. weigh_waiting w (remove path k)) x.waiting,
              weigh_kept-get_kept w path s,
              sum_entries-remove (λ (p : Bytes) l. weigh_kept w l) path s.keepalived t.kept,
            ) in
          let tn : IsTable
              (record left { sources = s.sources; keepalived = remove path s.keepalived }) =
            record {
              paths = t.paths;
              tables = t.tables;
              clients = t.clients;
              kept = remove-HasOnce path s.keepalived t.kept;
            } in
          subst (λ y. Expires s y) same
            (record {
              table =
                  subst (λ y. IsTable (record left { sources = y })) (sym x.tables)
                    (subst
                      (λ y.
                        IsTable (record left { sources = s.sources; keepalived = remove path y }))
                      (sym x.waiting) tn);
              gone = weigh_kept each (get_kept path s);
              weights = weights each;
              fewer = λ w. omega (arith, weights w);
              count = x.count;
            })
