-- ===== src/Server/Registry/Keepalive.antt =====
-- savate/server.py: a source that goes and comes back under a keepalive.
use savate.Prelude.{
  Bool, Bool-cases, Bytes, List, [], ap, append-nil, append_assoc, arith, bytes_eq, false, inl, inr,
  is_empty, nat_eq, none, refl, same_bytes_refl, some, sym, ℕ, ◌++◌, ◌==◌, ◌∙◌, ◌∷◌, ◌≡◌,
}
use savate.Dict.{Dict, lookup, put, remove}
use savate.Dict.Laws.{lookup-nil, lookup-put, lookup-remove}
use savate.Server.Routing.{Kept, Server, attach, get_kept, get_sources, register_source, set_source}
use savate.Server.Routing.Clients.{client_at}
use savate.Server.Registry.{keep_clients, remove_last, remove_source, removed}
use savate.Server.Registry.Migration.{IsDict}

abbrev kept_of : Dict ℕ ℕ → List Kept
kept_of [] = []
kept_of ((fd, client) ∷ cs) = record { fd = fd; client = client } ∷ kept_of cs

is_empty-kept_of : (cs : Dict ℕ ℕ) → is_empty (kept_of cs) ≡ is_empty cs
is_empty-kept_of [] = refl
is_empty-kept_of ((fd, client) ∷ cs) = refl

-- What keeping the clients does.
abbrev IsKept : Bytes → Dict ℕ ℕ → Server → Server → Type 0
IsKept path cs s s' =
    (get_kept path s' ≡ get_kept path s ++ kept_of cs)
    × (s'.sources ≡ s.sources)
    × (s'.clients_connected ≡ s.clients_connected)

keep_clients-IsKept :
    (path : Bytes) (cs : Dict ℕ ℕ) (s : Server) → IsKept path cs s (keep_clients path cs s)
unfolding keep_clients get_kept
keep_clients-IsKept path [] s = (sym (append-nil (get_kept path s)), refl, refl)
keep_clients-IsKept path ((fd, client) ∷ cs) s =
    let k : Kept = record { fd = fd; client = client } in
    let s1 : Server = record s {
      client_source = remove client s.client_source;
      keepalived = put path (get_kept path s ++ k ∷ []) s.keepalived;
    } in
    let (a, b, c) = keep_clients-IsKept path cs s1 in
    (
      ground (
        arith,
        a,
        lookup-put path path (get_kept path s ++ k ∷ []) s.keepalived,
        same_bytes_refl path,
        append_assoc (get_kept path s) (k ∷ []) (kept_of cs),
      ),
      b,
      c,
    )

lookup-attach :
    (cs : Dict ℕ ℕ) (f : ℕ) (table : Dict ℕ ℕ)
    → IsDict cs
    → lookup f (attach (kept_of cs) table)
      ≡ elim (lookup f cs) [ none ↦ lookup f table | some c ↦ some c ]
unfolding attach lookup
lookup-attach [] f table u = refl
lookup-attach ((fd, client) ∷ cs) f table (u, d) =
    ground (arith, u, lookup-attach cs f (put fd client table) d, lookup-put fd f client table)

lookup-set_source :
    (cs : Dict ℕ ℕ) (source c : ℕ) (owners : Dict ℕ ℕ)
    → lookup c owners ≡ some source
    → lookup c (set_source source (kept_of cs) owners) ≡ some source
unfolding set_source
lookup-set_source [] source c owners h = h
lookup-set_source ((fd, client) ∷ cs) source c owners h =
    lookup-set_source cs source c (put client source owners)
      (ground (arith, h, lookup-put client c source owners))

lookup-set_source-kept :
    (cs : Dict ℕ ℕ) (source f c : ℕ) (owners : Dict ℕ ℕ)
    → lookup f cs ≡ some c
    → lookup c (set_source source (kept_of cs) owners) ≡ some source
unfolding set_source lookup
lookup-set_source-kept [] source f c owners h = absurd (ground (arith, h))
lookup-set_source-kept ((fd, client) ∷ cs) source f c owners h = elim (Bool-cases (fd == f)) [
  | inl e ↦
      lookup-set_source cs source c (put client source owners)
        (ground (arith, e, h, lookup-put client c source owners))
  | inr e ↦ lookup-set_source-kept cs source f c (put client source owners) (ground (arith, e, h))
]

-- The clients of a table, at a source that has them all and no other.
abbrev pub Restored : Bytes → ℕ → Dict ℕ ℕ → Server → Type 0
Restored path new clients s =
    ((f : ℕ) → client_at path new f s ≡ lookup f clients)
    × ((f c : ℕ) → lookup f clients ≡ some c → lookup c s.client_source ≡ some new)
    × (get_kept path s ≡ [])

register_source-Restored :
    (path : Bytes) (new : ℕ) (clients : Dict ℕ ℕ) (s : Server)
    → IsDict clients
    → get_kept path s ≡ kept_of clients
    → lookup path s.sources ≡ none
    → Restored path new clients (register_source new path s)
unfolding register_source get_sources get_kept
register_source-Restored path new [] s u k h = (
  λ f. ground (
    arith,
    k,
    h,
    lookup-put path path (put new (attach [] []) []) s.sources,
    lookup-put new new (attach [] []) [],
    same_bytes_refl path,
    lookup-attach [] f [] u,
  ),
  λ f c e. absurd (unfold lookup in ground (arith, e)),
  ground (arith, k),
)
register_source-Restored path new ((fd, c) ∷ clients) s u k h =
    let ks = kept_of ((fd, c) ∷ clients) in
    (
      λ f. ground (
        arith,
        k,
        h,
        lookup-put path path (put new (attach ks []) []) s.sources,
        lookup-put new new (attach ks []) [],
        same_bytes_refl path,
        lookup-attach ((fd, c) ∷ clients) f [] u,
        lookup-nil {V = ℕ} f,
      ),
      λ f c1 e.
          ground (arith, k, lookup-set_source-kept ((fd, c) ∷ clients) new f c1 s.client_source e),
      ground (arith, k, lookup-remove path path s.keepalived, same_bytes_refl path),
    )

register_source-fields :
    (path : Bytes) (new : ℕ) (s : Server)
    → ((register_source new path s).clients_connected ≡ s.clients_connected)
      × (is_empty (get_kept path s) ≡ false
          → lookup path (register_source new path s).keepalive_timeouts ≡ none)
unfolding register_source
register_source-fields path new s = go (get_kept path s) refl
  where
    go :
        (ks : List Kept)
        → get_kept path s ≡ ks
        → ((register_source new path s).clients_connected ≡ s.clients_connected)
          × (is_empty (get_kept path s) ≡ false
              → lookup path (register_source new path s).keepalive_timeouts ≡ none)
    go [] e = (ground (arith, e), λ h. absurd (ground (arith, e, h)))
    go (k ∷ ks) e = (
      ground (arith, e),
      λ h. ground (arith, e, lookup-remove path path s.keepalive_timeouts, same_bytes_refl path),
    )

-- The only source of a path goes, with a keepalive that is not 0 and no client kept on the path before,
-- and later a source `new` registers on that path: no step fails, the number of clients is what it was,
-- `new` has exactly the clients that the first source had, each of them has `new` for its source, none
-- is kept any longer, and the keepalive timeout is off if there was a client.
pub register_source-remove_source :
    (activates : ℕ → Bool) (path_of : ℕ → Bytes) (keepalive source new : ℕ) (s : Server)
    (clients : Dict ℕ ℕ)
    → lookup (path_of source) s.sources ≡ some ((source, clients) ∷ [])
    → IsDict clients
    → keepalive == 0 ≡ false
    → get_kept (path_of source) s ≡ []
    → (s1 : Server) × (remove_source activates path_of (some keepalive) source s ≡ removed s1)
      × Restored (path_of source) new clients (register_source new (path_of source) s1)
      × ((register_source new (path_of source) s1).clients_connected ≡ s.clients_connected)
      × (is_empty clients ≡ false
          → lookup (path_of source) (register_source new (path_of source) s1).keepalive_timeouts
            ≡ none)
unfolding remove_source remove_last
register_source-remove_source activates path_of keepalive source new s clients e u k n =
    let path = path_of source in
    let s0 = keep_clients path clients s in
    let (a, b, c) = keep_clients-IsKept path clients s in
    let s1 : Server = record s0 {
      keepalive_timeouts = put path tt s0.keepalive_timeouts;
      sources = remove path s0.sources;
    } in
    let kept : get_kept path s1 ≡ kept_of clients = unfold get_kept in ground (arith, a, n) in
    let (p, q) = register_source-fields path new s1 in
    (
      s1,
      unfold lookup in ground (arith, e, k),
      register_source-Restored path new clients s1 u kept
          (ground (arith, lookup-remove path path s0.sources, same_bytes_refl path)),
      p ∙ c,
      λ h. q (ap (λ ks. is_empty ks) kept ∙ is_empty-kept_of clients ∙ h),
    )
