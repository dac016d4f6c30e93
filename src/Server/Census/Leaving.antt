-- ===== src/Server/Census/Leaving.antt =====
-- Clients that leave, and sources that leave their clients to others or to the keepalive.
use mathlib.Core.Path.{subst}
use savate.Prelude.{Bytes, Option, arith, none, refl, some, ℕ, ◌+◌, ◌-◌, ◌≡◌}
use savate.Dict.{Dict, lookup, remove}
use savate.Dict.Sums.{remove-HasOnce, sum_entries-remove}
use savate.Server.Routing.{Server}
use savate.Server.Registry.{drop_client, remove_client}
use savate.Server.Census.{IsTable, weigh}
use savate.Server.Census.Tables.{weigh-with_table, with_table, with_table-IsTable}
use savate.Prelude.{bytes_eq, nat_eq}

-- What the closing of a client with a source does.
pub record Leaves (fd : ℕ) (s s' : Server) : Type 0 where
  pub weights : (w : ℕ → ℕ) → weigh w s' + w fd ≡ weigh w s
  pub table : IsTable s'
  pub count : s'.clients_connected ≡ s.clients_connected - 1
  pub waiting : s'.keepalived ≡ s.keepalived

pub drop_client-Leaves :
    (path : Bytes) (source fd : ℕ) (s s' : Server)
    → drop_client path source fd (record s { clients_connected = s.clients_connected - 1 })
      ≡ some s'
    → IsTable s
    → Leaves fd s s'
unfolding drop_client
drop_client-Leaves path source fd s s' h t = go (lookup path s.sources) refl
  where
    go : (o : Option (Dict ℕ (Dict ℕ ℕ))) → lookup path s.sources ≡ o → Leaves fd s s'
    go none e = absurd (ground (arith, e, h))
    go (some d) e = at (lookup source d) refl
      where
        at : (o : Option (Dict ℕ ℕ)) → lookup source d ≡ o → Leaves fd s s'
        at none q = absurd (ground (arith, e, q, h))
        at (some cs) q = found (lookup fd cs) refl
          where
            found : (o : Option ℕ) → lookup fd cs ≡ o → Leaves fd s s'
            found none p = absurd (ground (arith, e, q, p, h))
            found (some c) p =
                let left : Server = record (with_table path source (remove fd cs) d s) {
                  clients_connected = s.clients_connected - 1;
                } in
                let same : left ≡ s' = ground (arith, e, q, p, h) in
                let once = t.clients path d source cs e q in
                let v =
                  with_table-IsTable path source (remove fd cs) d s e (remove-HasOnce fd cs once)
                    t in
                subst (λ y. Leaves fd s y) same
                  (record {
                    weights = λ w. ground (
                      arith,
                      weigh-with_table w path source (remove fd cs) cs d s e q,
                      sum_entries-remove (λ g (c : ℕ). w g) fd cs once,
                      p,
                    );
                    table = record {
                      paths = v.paths;
                      tables = v.tables;
                      clients = v.clients;
                      kept = v.kept;
                    };
                    count = refl;
                    waiting = refl;
                  })

module _ (path_of : ℕ → Bytes) where
  pub remove_client-Leaves :
      (fd client source : ℕ) (s s' : Server)
      → lookup client s.client_source ≡ some source
      → remove_client path_of fd client s ≡ some s'
      → IsTable s
      → Leaves fd s s'
  unfolding remove_client
  remove_client-Leaves fd client source s s' e h t =
      drop_client-Leaves (path_of source) source fd s s' (ground (arith, e, h)) t
