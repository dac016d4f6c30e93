-- ===== src/Server/Census/Departing.antt =====
-- savate/server.py: a source that goes, and its clients, by weight.
use savate.Prelude.{Bytes, List, [], arith, false, length, ltb, refl, some, ℕ, ◌++◌, ◌+◌, ◌∷◌, ◌≡◌}
use savate.Dict.{Dict, lookup, put, remove}
use savate.Dict.Laws.{lookup-remove}
use savate.Dict.Sums.{put-HasOnce, remove-HasOnce, sum_entries, sum_entries-put, sum_entries-remove}
use savate.Server.Routing.{Kept, Server, get_kept}
use savate.Server.Registry.{keep_clients}
use savate.Server.Census.{IsTable, weigh, weigh_clients, weigh_kept, weigh_sources}
use savate.Server.Census.Arriving.{weigh_kept-get_kept}
use savate.Prelude.{bytes_eq, nat_eq}

-- A server that has taken in some clients.
pub record TakesIn (cs : Dict ℕ ℕ) (s s' : Server) : Type 0 where
  pub weights : (w : ℕ → ℕ) → weigh w s' ≡ weigh w s + weigh_clients w cs
  pub table : IsTable s'
  pub count : s'.clients_connected ≡ s.clients_connected

weigh_kept-append :
    (w : ℕ → ℕ) (ks : List Kept) (k : Kept) → weigh_kept w (ks ++ k ∷ []) ≡ weigh_kept w ks + w k.fd
unfolding weigh_kept
weigh_kept-append w [] k = omega arith
weigh_kept-append w (x ∷ ks) k = omega (arith, weigh_kept-append w ks k)

pub keep_clients-TakesIn :
    (path : Bytes) (cs : Dict ℕ ℕ) (s : Server)
    → IsTable s
    → TakesIn cs s (keep_clients path cs s) × ((keep_clients path cs s).sources ≡ s.sources)
unfolding keep_clients sum_entries
keep_clients-TakesIn path [] s t =
    (record { weights = λ w. omega arith; table = t; count = refl }, refl)
keep_clients-TakesIn path ((fd, client) ∷ cs) s t =
    let k : Kept = record { fd = fd; client = client } in
    let ks = get_kept path s ++ k ∷ [] in
    let s1 : Server = record s {
      client_source = remove client s.client_source;
      keepalived = put path ks s.keepalived;
    } in
    let t1 : IsTable s1 = record {
      paths = t.paths;
      tables = t.tables;
      clients = t.clients;
      kept = put-HasOnce path ks s.keepalived t.kept;
    } in
    let (x, same) = keep_clients-TakesIn path cs s1 t1 in
    (
      record {
        weights = λ w. ground (
          arith,
          x.weights w,
          weigh_kept-append w (get_kept path s) k,
          weigh_kept-get_kept w path s,
          sum_entries-put (λ (p : Bytes) l. weigh_kept w l) path ks s.keepalived,
        );
        table = x.table;
        count = x.count;
      },
      same,
    )

pub remove-IsTable :
    (path : Bytes) (s : Server) → IsTable s → IsTable (record s { sources = remove path s.sources })
remove-IsTable path s t = record {
  paths = remove-HasOnce path s.sources t.paths;
  tables = λ p d q. t.tables p d (ground (arith, q, lookup-remove path p s.sources));
  clients =
      λ p d j cs q r. t.clients p d j cs (ground (arith, q, lookup-remove path p s.sources)) r;
  kept = t.kept;
}

-- The only source of a path.
only_source :
    (w : ℕ → ℕ) (source : ℕ) (cs : Dict ℕ ℕ) (d : Dict ℕ (Dict ℕ ℕ))
    → lookup source d ≡ some cs
    → ltb 1 (length d) ≡ false
    → weigh_sources w d ≡ weigh_clients w cs
unfolding lookup sum_entries
only_source w source cs [] e l = absurd (ground (arith, e))
only_source w source cs ((j, x) ∷ []) e l = ground (arith, e)
only_source w source cs (a ∷ b ∷ d) e l = absurd (ground (arith, l))

-- Without the entry of a path with one source, the clients of that source are missing.
pub without_path :
    (w : ℕ → ℕ) (path : Bytes) (source : ℕ) (cs : Dict ℕ ℕ) (d : Dict ℕ (Dict ℕ ℕ)) (s : Server)
    → IsTable s
    → lookup path s.sources ≡ some d
    → lookup source d ≡ some cs
    → ltb 1 (length d) ≡ false
    → weigh w (record s { sources = remove path s.sources }) + weigh_clients w cs ≡ weigh w s
without_path w path source cs d s t e q l = ground (
  arith,
  e,
  only_source w source cs d q l,
  sum_entries-remove (λ (p : Bytes) x. weigh_sources w x) path s.sources t.paths,
)
