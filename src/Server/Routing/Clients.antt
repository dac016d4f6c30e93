-- ===== src/Server/Routing/Clients.antt =====
-- The clients of a server: how many there may be, and where a new one goes.
use savate.Prelude.{
  Bool, Bytes, List, Option, [], arith, bytes_eq, false, if◌then◌else◌, inl, inr, nat_eq, none,
  refl, same_bytes, same_bytes_iff, some, true, ℕ, ◌&&◌, ◌+◌, ◌==◌, ◌∷◌, ◌≡◌, ◌≤◌, ◌⊎◌,
}
use savate.Dict.{Dict, lookup, put}
use savate.Dict.Laws.{lookup-put}
use savate.Server.Routing.{
  Answer, AuthHandler, Kept, Request, Routed, Server, add_client, authorize, exception, failed,
  get_kept, is_full, keys, listen, no_answer, no_response, publishing, register_source, responding,
  response, route, serve, showing_status, squash, streaming, transform_request,
}

-- The client with a descriptor among those of a source of a path.
abbrev pub client_at : Bytes → ℕ → ℕ → Server → Option ℕ
client_at path source fd s = elim (lookup path s.sources) [
  | none ↦ none
  | some d ↦ elim (lookup source d) [ none ↦ none | some clients ↦ lookup fd clients ]
]

-- What the request adds to the number of clients.
abbrev pub joined : Routed → ℕ
joined (streaming source) = 1
joined _ = 0

-- The counter follows the outcome and stays within the limit.
abbrev pub IsCounted : Server → Routed × Server → Type 0
IsCounted s (o, s') =
    (s'.clients_limit ≡ s.clients_limit)
    × (s'.clients_connected ≡ s.clients_connected + joined o)
    × ((n : ℕ) → s.clients_limit ≡ some n → s.clients_connected ≤ n → s'.clients_connected ≤ n)

-- What each branch shows: a client joins only where there was room.
abbrev pub Counts : Server → Routed × Server → Type 0
Counts s (o, s') =
    (s'.clients_limit ≡ s.clients_limit)
    × (s'.clients_connected ≡ s.clients_connected + joined o)
    × ((joined o ≡ 0) ⊎ (is_full s ≡ false))

Counts-IsCounted : (s : Server) (p : Routed × Server) → Counts s p → IsCounted s p
unfolding is_full
Counts-IsCounted s (o, s') (a, b, c) = (a, b, λ n e h. within o b c n e h)
  where
    within :
        (o : Routed)
        → s'.clients_connected ≡ s.clients_connected + joined o
        → ((joined o ≡ 0) ⊎ (is_full s ≡ false))
        → (n : ℕ) → s.clients_limit ≡ some n
        → s.clients_connected ≤ n
        → s'.clients_connected ≤ n
    within (streaming source) b (inl c) n e h = ground (arith, c)
    within (streaming source) b (inr c) n e h = ground (arith, b, c, e, h)
    within (responding m) b c n e h = ground (arith, b, h)
    within (publishing m) b c n e h = ground (arith, b, h)
    within showing_status b c n e h = ground (arith, b, h)
    within failed b c n e h = ground (arith, b, h)

register_source-Counts :
    (source : ℕ) (path : Bytes) (s : Server)
    → Counts s (publishing source, register_source source path s)
unfolding register_source
register_source-Counts source path s = go (get_kept path s) refl
  where
    go :
        (ks : List Kept)
        → get_kept path s ≡ ks
        → Counts s (publishing source, register_source source path s)
    go [] e = rw (e, register_source) (refl, ground arith, inl refl)
    go (k ∷ ks) e = rw (e, register_source) (refl, ground arith, inl refl)

authorize-joined :
    (handlers : List AuthHandler) (r : Request) (o : Routed)
    → authorize handlers r ≡ inl o
    → joined o ≡ 0
unfolding authorize
authorize-joined [] r o e = ground (arith, e)
authorize-joined (h ∷ hs) r o e = go (h r).0 refl (authorize-joined hs (h r).1 o)
  where
    go : (a : Answer) → (h r).0 ≡ a → (authorize hs (h r).1 ≡ inl o → joined o ≡ 0) → joined o ≡ 0
    go no_answer p k = k (ground (arith, p, e))
    go no_response p k = ground (arith, p, e)
    go exception p k = ground (arith, p, e)
    go (response n) p k = ground (arith, p, e)

module _ (fd client : ℕ) where
  -- Where a client is after a new one has been put in.
  pub add_client-client_at :
      (path : Bytes) (source : ℕ) (s s' : Server)
      → add_client path source fd client s ≡ some s'
      → (p : Bytes) (j f : ℕ)
      → client_at p j f s'
        ≡ (if same_bytes path p && source == j && fd == f then some client else client_at p j f s)
  unfolding add_client
  add_client-client_at path source s s' h p j f = go (lookup path s.sources) refl
    where
      go :
          (l : Option (Dict ℕ (Dict ℕ ℕ)))
          → lookup path s.sources ≡ l
          → client_at p j f s' ≡ (
              if same_bytes path p && source == j && fd == f
              then some client
              else client_at p j f s)
      go none e = ground (arith, e, h)
      go (some d) e = at (lookup source d) refl
        where
          at :
              (c : Option (Dict ℕ ℕ))
              → lookup source d ≡ c
              → client_at p j f s' ≡ (
                  if same_bytes path p && source == j && fd == f
                  then some client
                  else client_at p j f s)
          at none w = ground (arith, e, w, h)
          at (some clients) w =
              let q : s'.sources ≡ put path (put source (put fd client clients) d) s.sources =
                ground (arith, e, w, h) in
              rw q (
                grind (
                  arith,
                  e,
                  w,
                  lookup-put path p (put source (put fd client clients) d) s.sources,
                  lookup-put source j (put fd client clients) d,
                  lookup-put fd f client clients,
                  same_bytes_iff path p,
                ))

module _ (choice : List ℕ → Option ℕ) (find_source : Request → Option ℕ) (refuses : ℕ → Bool)
    (fd client : ℕ) where
  serve-Counts :
      (path : Bytes) (d : Dict ℕ (Dict ℕ ℕ)) (s : Server)
      → is_full s ≡ false
      → Counts s (serve choice find_source refuses fd client path d s)
  unfolding serve add_client
  serve-Counts path d s h = (ground arith, ground arith, inr h)

  listen-Counts :
      (r : Request) (s : Server) → Counts s (listen choice find_source refuses fd client r s)
  unfolding listen
  listen-Counts r s = go (lookup r.request_path s.sources) refl (is_full s) refl
    where
      go :
          (l : Option (Dict ℕ (Dict ℕ ℕ)))
          → lookup r.request_path s.sources ≡ l
          → (f : Bool) → is_full s ≡ f
          → Counts s (listen choice find_source refuses fd client r s)
      go none e f w = (ground (arith, e), ground (arith, e), ground (arith, e))
      go (some d) e true w = (ground (arith, e, w), ground (arith, e, w), ground (arith, e, w))
      go (some d) e false w =
          let c = serve-Counts r.request_path d s w in
          (ground (arith, e, w, c), ground (arith, e, w, c), inr w)

  pub route-Counts :
      (r : Request) (s : Server) → Counts s (route choice find_source refuses fd client r s)
  unfolding route
  route-Counts r s = go (find_source r) refl
    where
      go :
          (l : Option ℕ)
          → find_source r ≡ l
          → Counts s (route choice find_source refuses fd client r s)
      go none e =
          let c = listen-Counts r s in
          (ground (arith, e, c), ground (arith, e, c), ground (arith, e, c))
      go (some x) e =
          let c = listen-Counts r s in
          let p = register_source-Counts x r.request_path s in
          (ground (arith, e, c, p), ground (arith, e, c, p), ground (arith, e, c, p))

  -- Whatever the handlers answer, a request changes the number of streaming clients by one exactly if
  -- it is given a stream, the limit stays what it is, and a number of clients within the limit stays
  -- within it.
  pub transform_request-IsCounted :
      (handlers : List AuthHandler) (r : Request) (s : Server)
      → IsCounted s (transform_request choice find_source refuses fd client handlers r s)
  unfolding transform_request
  transform_request-IsCounted handlers r s =
      go (authorize handlers (record r { request_path = squash r.request_path })) refl
    where
      ended :
          (o : Routed)
          → authorize handlers (record r { request_path = squash r.request_path }) ≡ inl o
          → joined o ≡ 0
      ended o e = authorize-joined handlers (record r { request_path = squash r.request_path }) o e

      go :
          (l : Routed ⊎ Request)
          → authorize handlers (record r { request_path = squash r.request_path }) ≡ l
          → IsCounted s (transform_request choice find_source refuses fd client handlers r s)
      go (inl o) e =
          rw (e, transform_request)
            (Counts-IsCounted s (o, s) (refl, ground (arith, ended o e), inl (ended o e)))
      go (inr r') e =
          rw (e, transform_request)
            (Counts-IsCounted s (route choice find_source refuses fd client r' s)
              (route-Counts r' s))

  pub serve-add_client :
      (path : Bytes) (d : Dict ℕ (Dict ℕ ℕ)) (s s' : Server) (source : ℕ)
      → serve choice find_source refuses fd client path d s ≡ (streaming source, s')
      → (s1 : Server) × (add_client path source fd client s ≡ some s1)
        × (s'.sources ≡ s1.sources)
        × (s'.keepalived ≡ s1.keepalived)
  unfolding serve
  serve-add_client path d s s' source h = go (choice (keys d)) refl
    where
      go :
          (c : Option ℕ)
          → choice (keys d) ≡ c
          → (s1 : Server) × (add_client path source fd client s ≡ some s1)
            × (s'.sources ≡ s1.sources)
            × (s'.keepalived ≡ s1.keepalived)
      go none e = absurd (ground (arith, e, h))
      go (some x) e = at (add_client path x fd client s) refl
        where
          at :
              (a : Option Server)
              → add_client path x fd client s ≡ a
              → (s1 : Server) × (add_client path source fd client s ≡ some s1)
                × (s'.sources ≡ s1.sources)
                × (s'.keepalived ≡ s1.keepalived)
          at none w = absurd (ground (arith, e, w, h))
          at (some s1) w = (
            s1,
            ground (arith, e, w, h),
            ground (arith, e, w, h),
            unfold add_client in ground (arith, e, w, h),
          )

  pub route-serve :
      (r : Request) (s s' : Server) (source : ℕ)
      → route choice find_source refuses fd client r s ≡ (streaming source, s')
      → (d : Dict ℕ (Dict ℕ ℕ)) × (serve choice find_source refuses fd client r.request_path d s
          ≡ (streaming source, s'))
  unfolding route listen
  route-serve r s s' source h = go (lookup r.request_path s.sources) refl (find_source r) refl
    where
      go :
          (l : Option (Dict ℕ (Dict ℕ ℕ)))
          → lookup r.request_path s.sources ≡ l
          → (k : Option ℕ) → find_source r ≡ k
          → (d : Dict ℕ (Dict ℕ ℕ)) × (serve choice find_source refuses fd client r.request_path d s
              ≡ (streaming source, s'))
      go none e none w = absurd (ground (arith, e, w, h))
      go none e (some x) w = absurd (ground (arith, e, w, h))
      go (some d) e none w = (d, ground (arith, e, w, h))
      go (some d) e (some x) w = (d, ground (arith, e, w, h))

  -- Where a request is given a stream, the new client is found under its descriptor among those of
  -- that source of the request's path, and every other place of the tables holds what it did.
  pub route-client_at :
      (r : Request) (s s' : Server) (source : ℕ)
      → route choice find_source refuses fd client r s ≡ (streaming source, s')
      → (p : Bytes) (j f : ℕ)
      → client_at p j f s' ≡ (
          if same_bytes r.request_path p && source == j && fd == f
          then some client
          else client_at p j f s)
  route-client_at r s s' source h p j f =
      let (d, e) = route-serve r s s' source h in
      let (s1, a, q, k) = serve-add_client r.request_path d s s' source e in
      rw q (add_client-client_at fd client r.request_path source s s1 a p j f)
