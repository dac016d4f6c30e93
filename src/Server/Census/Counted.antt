-- ===== src/Server/Census/Counted.antt =====
-- clients_connected through everything that happens to clients and sources.
use mathlib.Core.Path.{subst}
use savate.Prelude.{Bool, Bytes, List, Option, [], arith, none, some, sym, ℕ, ◌+◌, ◌≡◌, ◌≤◌}
use savate.Dict.{Dict, lookup}
use savate.Dict.Laws.{lookup-nil}
use savate.Dict.Sums.{HasOnce, sum_entries}
use savate.Server.Routing.{Request, Server, get_sources, register_source, route, streaming}
use savate.Server.Routing.Clients.{route-Counts, route-serve, serve-add_client}
use savate.Server.Registry.{expire_keepalive, remove_client, remove_source, removed}
use savate.Server.Census.{IsTable, each, having, weigh}
use savate.Server.Census.Tables.{fresh-absent}
use savate.Server.Census.Joining.{add_client-Joins}
use savate.Server.Census.Arriving.{Keeps, register_source-Keeps}
use savate.Server.Census.Leaving.{remove_client-Leaves}
use savate.Server.Census.Expiring.{expire_keepalive-Expires}
use savate.Server.Census.Going.{remove_source-Keeps}
use savate.Prelude.{bytes_eq, nat_eq}

-- The state of `__init__`, as far as clients are concerned.
abbrev pub IsFresh : Server → Type 0
IsFresh s = (s.sources ≡ []) × (s.keepalived ≡ []) × (s.clients_connected ≡ 0)

module _ (choice : List ℕ → Option ℕ) (find_source : Request → Option ℕ)
    (refuses activates : ℕ → Bool) (path_of : ℕ → Bytes) where
  -- What happens: a request is given a stream, on a descriptor that no other client has; a source that is
  -- not there registers; a client leaves its source; a source is removed, without an exception; a keepalive
  -- expires.
  pub data Step : Server → Server → Type 0 where
    streams :
        {s s' : Server} (fd client source : ℕ) (r : Request)
        → weigh (having fd) s ≡ 0
        → route choice find_source refuses fd client r s ≡ (streaming source, s')
        → Step s s'
    registers :
        {s : Server} (source : ℕ) (path : Bytes)
        → lookup source (get_sources path s) ≡ none
        → Step s (register_source source path s)
    leaves :
        {s s' : Server} (fd client source : ℕ)
        → lookup client s.client_source ≡ some source
        → remove_client path_of fd client s ≡ some s'
        → Step s s'
    goes :
        {s s' : Server} (keepalive : Option ℕ) (source : ℕ)
        → remove_source activates path_of keepalive source s ≡ removed s'
        → Step s s'
    expires : {s s' : Server} (path : Bytes) → expire_keepalive path_of path s ≡ some s' → Step s s'

  pub data Reach (s0 : Server) : Server → Type 0 where
    start : Reach s0 s0
    next : {s s' : Server} → Reach s0 s → Step s s' → Reach s0 s'

  -- What holds all along.
  record IsCensus (s : Server) : Type 0 where
    table : IsTable s
    counted : s.clients_connected ≡ weigh each s
    once : (f : ℕ) → weigh (having f) s ≤ 1

  Keeps-IsCensus : (s s' : Server) → IsCensus s → Keeps s s' → IsCensus s'
  Keeps-IsCensus s s' v k = record {
    table = k.table;
    counted = ground (arith, v.counted, k.count, k.weights each);
    once = λ f. ground (arith, v.once f, k.weights (having f));
  }

  route-Joins :
      (fd client source : ℕ) (r : Request) (s s' : Server)
      → route choice find_source refuses fd client r s ≡ (streaming source, s')
      → IsTable s
      → weigh (having fd) s ≡ 0
      → ((w : ℕ → ℕ) → weigh w s' ≡ weigh w s + w fd) × IsTable s'
  route-Joins fd client source r s s' h t n =
      let (d, e) = route-serve choice find_source refuses fd client r s s' source h in
      let (s1, a, q, k) =
        serve-add_client choice find_source refuses fd client r.request_path d s s' source e in
      let j =
        add_client-Joins r.request_path source fd client s s1 a t
          (λ d x p q. fresh-absent fd r.request_path source x d s p q n) in
      let v : IsTable s1 = j.table in
      (
        λ w. ground (arith, j.weights w, q, k),
        subst (λ y. IsTable (record s' { sources = y })) (sym q)
            (subst (λ y. IsTable (record s' { sources = s1.sources; keepalived = y })) (sym k)
              (record { paths = v.paths; tables = v.tables; clients = v.clients; kept = v.kept })),
      )

  Step-IsCensus : (s s' : Server) → IsCensus s → Step s s' → IsCensus s'
  Step-IsCensus s s' v (streams fd client source r n h) =
      let (x, t) = route-Joins fd client source r s s' h v.table n in
      let (a, b, c) = route-Counts choice find_source refuses fd client r s in
      let more : s'.clients_connected ≡ s.clients_connected + 1 = ground (arith, b, h) in
      record {
        table = t;
        counted = ground (arith, more, v.counted, x each);
        once = λ f. ground (arith, v.once f, x (having f), n);
      }
  Step-IsCensus s s' v (registers source path n) =
      Keeps-IsCensus s (register_source source path s) v
        (register_source-Keeps source path s v.table v.once n)
  Step-IsCensus s s' v (leaves fd client source e h) =
      let x = remove_client-Leaves path_of fd client source s s' e h v.table in
      record {
        table = x.table;
        counted = ground (arith, v.counted, x.count, x.weights each);
        once = λ f. ground (arith, v.once f, x.weights (having f));
      }
  Step-IsCensus s s' v (goes keepalive source h) =
      Keeps-IsCensus s s' v
        (remove_source-Keeps activates path_of keepalive source s s' h v.table v.once)
  Step-IsCensus s s' v (expires path h) =
      let x = expire_keepalive-Expires path_of path s s' h v.table v.once in
      record {
        table = x.table;
        counted = ground (arith, v.counted, x.count, x.weights);
        once = λ f. ground (arith, v.once f, x.fewer (having f));
      }

  start-IsCensus : (s : Server) → IsFresh s → IsCensus s
  start-IsCensus s (a, b, c) = record {
    table = record {
      paths = subst (λ x. HasOnce x) (sym a) tt;
      tables = λ p d e. absurd (ground (arith, a, e, lookup-nil {V = Dict ℕ (Dict ℕ ℕ)} p));
      clients = λ p d j cs e q. absurd (ground (arith, a, e, lookup-nil {V = Dict ℕ (Dict ℕ ℕ)} p));
      kept = subst (λ x. HasOnce x) (sym b) tt;
    };
    counted = unfold sum_entries in ground (arith, a, b, c);
    once = λ f. unfold sum_entries in ground (arith, a, b, c);
  }

  Reach-IsCensus : (s0 s : Server) → IsFresh s0 → Reach s0 s → IsCensus s
  Reach-IsCensus s0 s h start = start-IsCensus s0 h
  Reach-IsCensus s0 s h (next {s = s1} a b) = Step-IsCensus s1 s (Reach-IsCensus s0 s1 h a) b

  -- On a server that started empty, after any number of streams given, on descriptors that no other client
  -- has at the time, of new sources, of clients that leave the source they have, of sources that are removed
  -- and of keepalives that expire, each without an exception and in any order: clients_connected is the
  -- number of clients that the sources of all paths have and that are kept, and no two of these have the
  -- same descriptor.
  pub Reach-counted :
      (s0 s : Server)
      → IsFresh s0
      → Reach s0 s
      → (s.clients_connected ≡ weigh each s) × ((f : ℕ) → weigh (having f) s ≤ 1)
  Reach-counted s0 s h a = let v = Reach-IsCensus s0 s h a in (v.counted, v.once)
