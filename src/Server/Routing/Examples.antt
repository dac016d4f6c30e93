-- ===== src/Server/Routing/Examples.antt =====
-- Requests, routed.
use savate.Prelude.{
  List, Option, [], arith, bytes_eq, codes_of, false, nat_eq, none, refl, some, ℕ, ◌∷◌, ◌≡◌,
}
use savate.Dict.{lookup, put}
use savate.Auth.{is_ascii}
use savate.Server.Routing.{
  AuthHandler, Request, Server, add_client, is_full, is_listening, is_publishing, keys, listen,
  mem_bytes, responding, response, route, serve, transform_request,
}
use savate.Server.Routing.Access.{denied_at, transform_request-Denies}
use savate.Server.Routing.Clients.{IsCounted, transform_request-IsCounted}

-- Source 5 plays on /a with client 1 at descriptor 7.
abbrev one_source : Server
one_source = record {
  sources = (codes_of "/a", (5, (7, 1) ∷ []) ∷ []) ∷ [];
  status_handlers = codes_of "/status" ∷ [];
  keepalived = [];
  keepalive_timeouts = [];
  client_source = (1, 5) ∷ [];
  clients_connected = 1;
  clients_limit = some 2;
}

abbrev get : Request
get = record { request_method = codes_of "GET"; request_path = codes_of "/a" }

first : List ℕ → Option ℕ
first [] = none
first (x ∷ xs) = some x

deny : AuthHandler
deny r = (response 403, r)

transform_request-Denies_example :
    transform_request first (λ r. none) (λ s. false) 8 2 (deny ∷ []) get one_source
    ≡ (responding 403, one_source)
unfolding deny
transform_request-Denies_example =
    transform_request-Denies first (λ r. none) (λ s. false) 8 2 (deny ∷ []) get one_source 403
      (denied_at refl (omega arith))

transform_request-IsCounted_example :
    IsCounted one_source (transform_request first (λ r. none) (λ s. false) 8 2 [] get one_source)
transform_request-IsCounted_example =
    transform_request-IsCounted first (λ r. none) (λ s. false) 8 2 [] get one_source

abbrev after : Server
after = (route first (λ r. none) (λ s. false) 8 2 get one_source).1

-- Two clients: the limit is reached.
full : (route first (λ r. none) (λ s. false) 9 3 get after).0 ≡ responding 503
unfolding route is_ascii is_publishing is_listening listen serve first keys add_client lookup put
    is_full mem_bytes
full = refl
