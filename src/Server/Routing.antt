-- ===== src/Server/Routing.antt =====
-- savate/server.py: HTTPRequest.transform_request, with what it changes of TCPServer, and
-- register_source. Sources, clients and file descriptors are numbers. What is registered on the event
-- loop is the outcome; the inactivity timeouts and the log are left out.
pub mod Access
pub mod Clients
mod Examples
use savate.Prelude.{
  Bool, Bytes, List, Option, [], bytes_eq, codes_of, false, if◌then◌else◌, inl, inr, is_empty,
  nat_eq, none, not, same_bytes, some, ℕ, ◌&&◌, ◌+◌, ◌==◌, ◌||◌, ◌∷◌, ◌⊎◌,
}
use savate.Text.{starts_with}
use savate.Dict.{Dict, lookup, put, remove}
use savate.Auth.{is_ascii}

pub record Request : Type 0 where
  pub request_method : Bytes
  pub request_path : Bytes

-- What an authorization handler gives: None, a response with its status, an object that is no
-- response, or an exception.
pub data Answer : Type 0 where
  no_answer : Answer
  response : ℕ → Answer
  no_response : Answer
  exception : Answer

-- A handler may change the request's path.
abbrev pub AuthHandler : Type 0
AuthHandler = Request → Answer × Request

-- A client whose source has gone, kept until a source comes back, and open: for a closed one, the tests of
-- `closed` on the kept clients end with an exception, and its close is no operation here.
pub record Kept : Type 0 where
  pub fd : ℕ
  pub client : ℕ

pub record Server : Type 0 where
  -- path → source → {"clients": fd → client}
  pub sources : Dict Bytes (Dict ℕ (Dict ℕ ℕ))
  pub status_handlers : List Bytes
  pub keepalived : Dict Bytes (List Kept)
  -- the paths with a keepalive timeout armed
  pub keepalive_timeouts : Dict Bytes (Unit {0})
  -- each client's `source`
  pub client_source : Dict ℕ ℕ
  pub clients_connected : ℕ
  pub clients_limit : Option ℕ

-- What becomes of the request.
pub data Routed : Type 0 where
  responding : ℕ → Routed
  publishing : ℕ → Routed
  showing_status : Routed
  streaming : ℕ → Routed
  failed : Routed

abbrev pub slash : ℕ
slash = 47

-- re.sub(b"//+", b"/", path)
pub squash : Bytes → Bytes
squash [] = []
squash (c ∷ s) =
    let rest = squash s in if c == slash && starts_with (slash ∷ []) rest then rest else c ∷ rest

-- The loop over the authorization handlers: `inl` ends the request, `inr` goes on with it.
pub authorize : List AuthHandler → Request → Routed ⊎ Request
authorize [] r = inr r
authorize (h ∷ hs) r =
    let (answer, r') = h r in
    let rest = authorize hs r' in
    elim answer [
      | no_answer ↦ rest
      | no_response ↦ inl failed
      | exception ↦ inl failed
      | response n ↦ if n == 200 then inr r' else inl (responding n)
    ]

-- `sources[path][source]["clients"][fd] = client`, `none` being KeyError.
unfoldable pub add_client : Bytes → ℕ → ℕ → ℕ → Server → Option Server
add_client path source fd client s = elim (lookup path s.sources) [
  | none ↦ none
  | some d ↦ elim (lookup source d) [
    | none ↦ none
    | some clients ↦
        some (record s { sources = put path (put source (put fd client clients) d) s.sources })
  ]
]

-- The clients table of a new source: the kept clients.
unfoldable pub attach : List Kept → Dict ℕ ℕ → Dict ℕ ℕ
attach [] clients = clients
attach (k ∷ ks) clients = attach ks (put k.fd k.client clients)

unfoldable pub set_source : ℕ → List Kept → Dict ℕ ℕ → Dict ℕ ℕ
set_source source [] owners = owners
set_source source (k ∷ ks) owners = set_source source ks (put k.client source owners)

-- `self.sources.get(path, {})`, and `self.keepalived[path]`, whose empty default is not stored here.
unfoldable pub get_sources : Bytes → Server → Dict ℕ (Dict ℕ ℕ)
get_sources path s = elim (lookup path s.sources) [ none ↦ [] | some d ↦ d ]

unfoldable pub get_kept : Bytes → Server → List Kept
get_kept path s = elim (lookup path s.keepalived) [ none ↦ [] | some ks ↦ ks ]

unfoldable pub register_source : ℕ → Bytes → Server → Server
register_source source path s =
    let waiting = get_kept path s in
    let table = put source (attach waiting []) (get_sources path s) in
    elim waiting [
      | [] ↦ record s { sources = put path table s.sources }
      | k ∷ ks ↦ record s {
        sources = put path table s.sources;
        client_source = set_source source (k ∷ ks) s.client_source;
        keepalived = remove path s.keepalived;
        keepalive_timeouts = remove path s.keepalive_timeouts;
      }
    ]

unfoldable pub is_publishing : Bytes → Bool
is_publishing m =
    same_bytes m (codes_of "PUT")
    || same_bytes m (codes_of "SOURCE")
    || same_bytes m (codes_of "POST")

unfoldable pub is_listening : Bytes → Bool
is_listening m = same_bytes m (codes_of "GET") || same_bytes m (codes_of "HEAD")

unfoldable pub is_full : Server → Bool
is_full s = elim s.clients_limit [ none ↦ false | some n ↦ n == s.clients_connected ]

unfoldable pub mem_bytes : Bytes → List Bytes → Bool
mem_bytes b [] = false
mem_bytes b (x ∷ xs) = same_bytes b x || mem_bytes b xs

unfoldable pub keys {ℓ} : {V : Type ℓ} → Dict ℕ V → List ℕ
keys [] = []
keys ((k, v) ∷ d) = k ∷ keys d

-- `choice` is random.choice, with IndexError on an empty list; `find_source` is
-- sources.find_source, whose exceptions are `none`; `refuses` says whether
-- find_client or the source's `new_client` raises; `client` and `fd` are the new client and its descriptor.
module _ (choice : List ℕ → Option ℕ) (find_source : Request → Option ℕ) (refuses : ℕ → Bool)
    (fd client : ℕ) where
  -- A client for one of the sources of a path.
  unfoldable pub serve : Bytes → Dict ℕ (Dict ℕ ℕ) → Server → Routed × Server
  serve path d s = elim (choice (keys d)) [
    | none ↦ (failed, s)
    | some source ↦
        if refuses source then (failed, s) else (elim (add_client path source fd client s) [
          | none ↦ (failed, s)
          | some s' ↦ (
            streaming source,
            record s' {
              client_source = put client source s'.client_source;
              clients_connected = s'.clients_connected + 1;
            },
          )
        ])
  ]

  unfoldable pub listen : Request → Server → Routed × Server
  listen r s =
      if mem_bytes r.request_path s.status_handlers
      then (if same_bytes r.request_method (codes_of "GET")
          then (showing_status, s)
          else (responding 405, s))
      else (elim (lookup r.request_path s.sources) [
        | none ↦ (responding 404, s)
        | some d ↦
            if same_bytes r.request_method (codes_of "HEAD")
            then (if is_empty d then (failed, s) else (responding 200, s))
            else if is_full s
            then (responding 503, s)
            else serve r.request_path d s
      ])

  -- After authorization.
  unfoldable pub route : Request → Server → Routed × Server
  route r s =
      if not (is_ascii r.request_path)
      then (failed, s)
      else if is_publishing r.request_method
      then (elim (find_source r) [
        | none ↦ (failed, s)
        | some source ↦ (publishing source, register_source source r.request_path s)
      ])
      else if is_listening r.request_method
      then listen r s
      else (responding 405, s)

  pub transform_request : List AuthHandler → Request → Server → Routed × Server
  transform_request handlers r s =
      elim (authorize handlers (record r { request_path = squash r.request_path })) [
        | inl o ↦ (o, s)
        | inr r' ↦ route r' s
      ]
