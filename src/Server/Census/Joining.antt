-- ===== src/Server/Census/Joining.antt =====
-- New clients and new sources, by weight.
use mathlib.Core.Path.{subst}
use savate.Prelude.{Bytes, List, Option, [], arith, none, refl, some, ℕ, ◌+◌, ◌∷◌, ◌≡◌, ◌≤◌}
use savate.Dict.{Dict, lookup, put}
use savate.Dict.Sums.{HasOnce, put-HasOnce, sum_entries-put}
use savate.Server.Routing.{Kept, Server, add_client, attach}
use savate.Server.Census.{IsTable, having, weigh, weigh_clients, weigh_kept}
use savate.Server.Census.Tables.{share-le, weigh-with_table, with_table, with_table-IsTable}
use savate.Prelude.{bytes_eq, nat_eq}

-- What adding a client does to the server.
pub record Joins (fd : ℕ) (s s' : Server) : Type 0 where
  pub weights : (w : ℕ → ℕ) → weigh w s' ≡ weigh w s + w fd
  pub table : IsTable s'
  pub others : (s'.keepalived ≡ s.keepalived) × (s'.clients_connected ≡ s.clients_connected)

pub add_client-Joins :
    (path : Bytes) (source fd client : ℕ) (s s' : Server)
    → add_client path source fd client s ≡ some s'
    → IsTable s
    → ((d : Dict ℕ (Dict ℕ ℕ)) (cs : Dict ℕ ℕ)
        → lookup path s.sources ≡ some d
        → lookup source d ≡ some cs
        → lookup fd cs ≡ none)
    → Joins fd s s'
unfolding add_client
add_client-Joins path source fd client s s' h t absent = go (lookup path s.sources) refl
  where
    go : (o : Option (Dict ℕ (Dict ℕ ℕ))) → lookup path s.sources ≡ o → Joins fd s s'
    go none e = absurd (ground (arith, e, h))
    go (some d) e = at (lookup source d) refl
      where
        at : (o : Option (Dict ℕ ℕ)) → lookup source d ≡ o → Joins fd s s'
        at none q = absurd (ground (arith, e, q, h))
        at (some cs) q =
            let same : with_table path source (put fd client cs) d s ≡ s' =
              ground (arith, e, q, h) in
            let none_there = absent d cs e q in
            subst (λ x. Joins fd s x) same
              (record {
                weights = λ w. ground (
                  arith,
                  weigh-with_table w path source (put fd client cs) cs d s e q,
                  sum_entries-put (λ g (c : ℕ). w g) fd client cs,
                  none_there,
                );
                table =
                    with_table-IsTable path source (put fd client cs) d s e
                      (put-HasOnce fd client cs (t.clients path d source cs e q)) t;
                others = (refl, refl);
              })

-- The kept clients, in the table of a source.
pub weigh-attach :
    (w : ℕ → ℕ) (ks : List Kept) (cs : Dict ℕ ℕ)
    → ((f : ℕ) → weigh_clients (having f) cs + weigh_kept (having f) ks ≤ 1)
    → weigh_clients w (attach ks cs) ≡ weigh_clients w cs + weigh_kept w ks
unfolding attach weigh_kept
weigh-attach w [] cs h = omega arith
weigh-attach w (k ∷ ks) cs h =
    let gone : lookup k.fd cs ≡ none = no_fd (lookup k.fd cs) refl in
    let rest = weigh-attach w ks (put k.fd k.client cs) (λ f.
      ground (arith, h f, gone, sum_entries-put (λ g (x : ℕ). having f g) k.fd k.client cs)) in
    ground (arith, rest, gone, sum_entries-put (λ g (x : ℕ). w g) k.fd k.client cs)
  where
    no_fd : (o : Option ℕ) → lookup k.fd cs ≡ o → lookup k.fd cs ≡ none
    no_fd none p = p
    no_fd (some x) p =
        absurd (ground (arith, p, h k.fd, share-le (λ g (x : ℕ). having k.fd g) k.fd cs))

pub attach-HasOnce : (ks : List Kept) (cs : Dict ℕ ℕ) → HasOnce cs → HasOnce (attach ks cs)
unfolding attach
attach-HasOnce [] cs h = h
attach-HasOnce (k ∷ ks) cs h =
    attach-HasOnce ks (put k.fd k.client cs) (put-HasOnce k.fd k.client cs h)
