-- ===== src/Server/Registry/Migration.antt =====
-- savate/server.py: a source that goes from a path with other sources.
use savate.Prelude.{
  Bool, Bool-cases, Bytes, List, Option, [], arith, bytes_eq, false, if◌then◌else◌, inl, inr,
  is_empty, length, nat_eq, none, refl, same_bytes_refl, some, sym, true, ℕ, ◌<◌, ◌==◌, ◌||◌, ◌∙◌,
  ◌∷◌, ◌≡◌,
}
use savate.Dict.{Dict, has, lookup, put, remove}
use savate.Dict.Laws.{lookup-put}
use savate.Server.Routing.{Server, add_client, keys}
use savate.Server.Routing.Clients.{add_client-client_at, client_at}
use savate.Server.Registry.{migrate, remove_source, removed}

-- A dictionary holds a key once.
abbrev pub IsDict : {V : Type 0} → Dict ℕ V → Type 0
IsDict [] = Unit
IsDict ((k, v) ∷ d) = (lookup k d ≡ none) × IsDict d

-- Whether a source has a table of clients on a path.
abbrev pub has_source : Bytes → ℕ → Server → Bool
has_source path j s = elim (lookup path s.sources) [ none ↦ false | some d ↦ has j d ]

abbrev pub member : ℕ → List ℕ → Bool
member j [] = false
member j (k ∷ ks) = k == j || member j ks

member-keys : {V : Type 0} (j : ℕ) (d : Dict ℕ V) → member j (keys d) ≡ has j d
unfolding keys lookup
member-keys j [] = refl
member-keys j ((k, v) ∷ d) = ground (arith, member-keys j d)

add_client-has_source :
    (path : Bytes) (source fd client : ℕ) (s : Server)
    → has_source path source s ≡ true
    → (s' : Server) × (add_client path source fd client s ≡ some s')
      × ((j : ℕ) → has_source path j s' ≡ has_source path j s)
unfolding add_client
add_client-has_source path source fd client s h = go (lookup path s.sources) refl
  where
    Goal : Type 0
    Goal =
        (s' : Server) × (add_client path source fd client s ≡ some s')
        × ((j : ℕ) → has_source path j s' ≡ has_source path j s)

    go : (o : Option (Dict ℕ (Dict ℕ ℕ))) → lookup path s.sources ≡ o → Goal
    go none e = absurd (ground (arith, e, h))
    go (some d) e = at (lookup source d) refl
      where
        at : (o : Option (Dict ℕ ℕ)) → lookup source d ≡ o → Goal
        at none w = absurd (ground (arith, e, w, h))
        at (some clients) w =
            let d' = put source (put fd client clients) d in
            (
              record s { sources = put path d' s.sources },
              ground (arith, e, w),
              λ j. ground (
                arith,
                e,
                w,
                lookup-put path path d' s.sources,
                lookup-put source j (put fd client clients) d,
                same_bytes_refl path,
              ),
            )

-- Each client's new place, and the places that stay.
abbrev pub Moved : Bytes → List ℕ → Dict ℕ ℕ → Server → Server → Type 0
Moved path remaining cs s s' =
    ((fd client : ℕ)
      → lookup fd cs ≡ some client
      → (j : ℕ) × (member j remaining ≡ true) × (client_at path j fd s' ≡ some client))
    × ((p : Bytes) (j fd : ℕ) → lookup fd cs ≡ none → client_at p j fd s' ≡ client_at p j fd s)

migrate-Moved :
    (activates : ℕ → Bool) (path : Bytes) (remaining turn : List ℕ) (cs : Dict ℕ ℕ) (s : Server)
    → IsDict cs
    → is_empty remaining ≡ false
    → ((j : ℕ) → member j turn ≡ true → member j remaining ≡ true)
    → ((j : ℕ) → member j remaining ≡ true → (has_source path j s ≡ true) × (activates j ≡ true))
    → (s' : Server) × (migrate activates path remaining turn cs s ≡ removed s')
      × Moved path remaining cs s s'
unfolding migrate
migrate-Moved activates path remaining turn [] s d r t h =
    (s, refl, (λ fd client e. absurd (unfold lookup in ground (arith, e)), λ p j fd e. refl))
migrate-Moved activates path remaining turn ((fd, client) ∷ cs) s (u, d) r t h =
    go (if is_empty turn then remaining else turn) refl (now remaining turn r t)
      (λ rest s1. migrate-Moved activates path remaining rest cs s1 d r)
  where
    now :
        (remaining turn : List ℕ)
        → is_empty remaining ≡ false
        → ((j : ℕ) → member j turn ≡ true → member j remaining ≡ true)
        → (is_empty (if is_empty turn then remaining else turn) ≡ false)
          × ((j : ℕ)
              → member j (if is_empty turn then remaining else turn) ≡ true
              → member j remaining ≡ true)
    now remaining [] r t = (r, λ j e. e)
    now remaining (k ∷ ks) r t = (refl, t)

    Goal : Type 0
    Goal =
        (s' : Server) × (migrate activates path remaining turn ((fd, client) ∷ cs) s ≡ removed s')
        × Moved path remaining ((fd, client) ∷ cs) s s'

    Ih : Type 0
    Ih =
        (rest : List ℕ) (s1 : Server)
        → ((j : ℕ) → member j rest ≡ true → member j remaining ≡ true)
        → ((j : ℕ)
            → member j remaining ≡ true
            → (has_source path j s1 ≡ true) × (activates j ≡ true))
        → (s' : Server) × (migrate activates path remaining rest cs s1 ≡ removed s')
          × Moved path remaining cs s1 s'

    go :
        (l : List ℕ)
        → (if is_empty turn then remaining else turn) ≡ l
        → (is_empty l ≡ false) × ((j : ℕ) → member j l ≡ true → member j remaining ≡ true)
        → Ih
        → Goal
    go [] e (a, b) ih = absurd (ground (arith, a))
    go (j ∷ rest) e (a, b) ih =
        let mem : member j remaining ≡ true = b j (ground arith) in
        let s0 = record s { client_source = put client j s.client_source } in
        let (s1, added, same) = add_client-has_source path j fd client s0 (h j mem).0 in
        let (s', done, (moved, kept)) =
          ih rest s1 (λ k m. b k (ground (arith, m))) (λ k m. ((same k) ∙ (h k m).0, (h k m).1)) in
        let at = add_client-client_at fd client path j s0 s1 added in
        (
          s',
          ground (arith, e, added, done, (h j mem).1),
          (
            λ fd1 client1 found. elim (Bool-cases (fd == fd1)) [
              | inl q ↦ (
                j,
                mem,
                unfold lookup in
                    ground
                      (arith, q, found, u, kept path j fd1, at path j fd1, same_bytes_refl path),
              )
              | inr q ↦ moved fd1 client1 (unfold lookup in ground (arith, q, found))
            ],
            λ p k fd1 found. unfold lookup in ground (arith, found, kept p k fd1, at p k fd1),
          ),
        )

is_empty-keys : {V : Type 0} (d : Dict ℕ V) → is_empty (keys d) ≡ is_empty d
unfolding keys
is_empty-keys [] = refl
is_empty-keys ((k, v) ∷ d) = refl

remove-nonempty :
    {V : Type 0} (k : ℕ) (d : Dict ℕ V) → IsDict d → 1 < length d → is_empty (remove k d) ≡ false
unfolding remove lookup
remove-nonempty k [] u h = elim h [ ]
remove-nonempty k (a ∷ []) u h = absurd (omega arith)
remove-nonempty k ((i, v) ∷ (j, w) ∷ d) (u, _) h = ground (arith, u)

-- A source that leaves its path to others, whose on_demand_activate returns, is removed without an
-- error: each of its clients is then found, under its own descriptor, with one of the others, and the
-- descriptors that were not its clients' lead, with the others and on other paths, where they did.
pub remove_source-Moved :
    (activates : ℕ → Bool) (path_of : ℕ → Bytes) (keepalive : Option ℕ) (source : ℕ) (s : Server)
    (d : Dict ℕ (Dict ℕ ℕ)) (clients : Dict ℕ ℕ)
    → lookup (path_of source) s.sources ≡ some d
    → lookup source d ≡ some clients
    → IsDict clients
    → 1 < length d
    → IsDict d
    → ((j : ℕ) → has j (remove source d) ≡ true → activates j ≡ true)
    → (s' : Server) × (remove_source activates path_of keepalive source s ≡ removed s')
      × Moved
          (path_of source)
          (keys (remove source d))
          clients
          (record s { sources = put (path_of source) (remove source d) s.sources })
          s'
unfolding remove_source
remove_source-Moved activates path_of keepalive source s d clients e w c n r act =
    let path = path_of source in
    let s0 = record s { sources = put path (remove source d) s.sources } in
    let (s', done, m) =
      migrate-Moved activates path (keys (remove source d)) [] clients s0 c
        (is_empty-keys (remove source d) ∙ remove-nonempty source d r n)
        (λ j h. absurd (ground (arith, h)))
        (λ j h. (
          ground (
            arith,
            lookup-put path path (remove source d) s.sources,
            same_bytes_refl path,
            member-keys j (remove source d),
            h,
          ),
          act j (sym (member-keys j (remove source d)) ∙ h),
        )) in
    (s', ground (arith, e, w, n, done), m)
