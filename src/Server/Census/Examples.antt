-- ===== src/Server/Census/Examples.antt =====
-- A listener whose source goes, with a keepalive.
use savate.Prelude.{
  Bool, Bytes, List, Option, [], codes_of, false, none, refl, some, true, ℕ, ◌∷◌, ◌≡◌, ◌≤◌,
}
use savate.Dict.{lookup, put, remove}
use savate.Dict.Sums.{sum_entries}
use savate.Server.Routing.{
  Request, Server, add_client, attach, get_kept, get_sources, is_full, is_listening, is_publishing,
  keys, listen, mem_bytes, register_source, route, serve,
}
use savate.Server.Registry.{
  close_kept, expire_keepalive, keep_clients, remove_client, remove_last, remove_source,
}
use savate.Server.Census.{each, having, weigh, weigh_kept}
use savate.Server.Census.Counted.{
  Reach, Reach-counted, Step, expires, goes, next, registers, start, streams,
}
use savate.Prelude.{bytes_eq, nat_eq}
use savate.Auth.{is_ascii}

abbrev path : Bytes
path = codes_of "/a"

abbrev request : Request
request = record { request_method = codes_of "GET"; request_path = path }

abbrev first : List ℕ → Option ℕ
first [] = none
first (x ∷ xs) = some x

abbrev none_new : Request → Option ℕ
none_new r = none

abbrev never : ℕ → Bool
never j = false

abbrev always : ℕ → Bool
always j = true

abbrev on_path : ℕ → Bytes
on_path j = path

abbrev empty : Server
empty = record {
  sources = [];
  status_handlers = [];
  keepalived = [];
  keepalive_timeouts = [];
  client_source = [];
  clients_connected = 0;
  clients_limit = some 1;
}

-- The source 5 without clients, and with the client 1 on the descriptor 7.
abbrev one_source : Server
one_source = record empty { sources = (path, (5, []) ∷ []) ∷ [] }

abbrev one_client : Server
one_client = record empty {
  sources = (path, (5, (7, 1) ∷ []) ∷ []) ∷ [];
  client_source = (1, 5) ∷ [];
  clients_connected = 1;
}

abbrev kept_client : Server
kept_client = record empty {
  keepalived = (path, (record { fd = 7; client = 1 }) ∷ []) ∷ [];
  keepalive_timeouts = (path, tt) ∷ [];
  clients_connected = 1;
}

abbrev Run : Server → Type 0
Run s = Reach first none_new never always on_path empty s

abbrev Next : Server → Server → Type 0
Next s s' = Step first none_new never always on_path s s'

registered : Next empty one_source
unfolding register_source get_kept get_sources attach lookup put
registered = registers 5 path refl

given_a_stream : Next one_source one_client
unfolding route listen serve add_client keys lookup put sum_entries weigh_kept is_ascii
    is_publishing is_listening is_full mem_bytes
given_a_stream = streams 7 1 5 request refl refl

source_gone : Next one_client kept_client
unfolding remove_source remove_last keep_clients get_kept lookup put remove
source_gone = goes (some 10) 5 refl

-- If it does not come back, nobody is left.
expired : Next kept_client empty
unfolding expire_keepalive close_kept remove_client get_kept lookup remove
expired = expires path refl

kept_client-reached : Run kept_client
kept_client-reached = next (next (next start registered) given_a_stream) source_gone

Reach-counted_example :
    (kept_client.clients_connected ≡ weigh each kept_client)
    × ((f : ℕ) → weigh (having f) kept_client ≤ 1)
Reach-counted_example =
    Reach-counted first none_new never always on_path empty kept_client (refl, refl, refl)
      kept_client-reached
