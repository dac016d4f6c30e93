-- ===== src/Server/Registry/Closing.antt =====
-- A source that goes with its clients.
use savate.Prelude.{
  Bool, Bytes, Option, [], arith, bytes_eq, false, is_empty, nat_eq, none, refl, same_bytes_iff,
  some, true, ℕ, ◌-◌, ◌==◌, ◌∷◌, ◌≡◌,
}
use savate.Dict.{Dict, lookup, put, remove}
use savate.Dict.Laws.{lookup-put}
use savate.Server.Routing.{Server}
use savate.Server.Registry.{
  close_clients, drop_client, raised, remove_client, remove_last, remove_source,
}
use savate.Server.Registry.Migration.{has_source}

-- A keepalive that is absent or 0.
abbrev pub is_off : Option ℕ → Bool
is_off none = true
is_off (some n) = n == 0

drop_client-has_source :
    (path : Bytes) (source fd : ℕ) (s : Server)
    → has_source path source s ≡ true
    → (path' : Bytes) (source' : ℕ) (s' : Server) → drop_client path' source' fd s ≡ some s'
    → has_source path source s' ≡ true
unfolding drop_client
drop_client-has_source path source fd s h path' source' s' e = go (lookup path' s.sources) refl
  where
    go :
        (o : Option (Dict ℕ (Dict ℕ ℕ)))
        → lookup path' s.sources ≡ o
        → has_source path source s' ≡ true
    go none w = absurd (ground (arith, w, e))
    go (some d) w = at (lookup source' d) refl
      where
        at : (o : Option (Dict ℕ ℕ)) → lookup source' d ≡ o → has_source path source s' ≡ true
        at none x = absurd (ground (arith, w, x, e))
        at (some clients) x =
            let d' = put source' (remove fd clients) d in
            ground (
              arith,
              w,
              x,
              e,
              h,
              lookup-put path' path d' s.sources,
              lookup-put source' source (remove fd clients) d,
              same_bytes_iff path' path,
            )

remove_client-has_source :
    (path_of : ℕ → Bytes) (path : Bytes) (source fd client : ℕ) (s s' : Server)
    → has_source path source s ≡ true
    → remove_client path_of fd client s ≡ some s'
    → has_source path source s' ≡ true
unfolding remove_client
remove_client-has_source path_of path source fd client s s' h e =
    go (lookup client s.client_source) refl
  where
    go : (o : Option ℕ) → lookup client s.client_source ≡ o → has_source path source s' ≡ true
    go none w = ground (arith, w, e, h)
    go (some j) w =
        drop_client-has_source path source fd
          (record s { clients_connected = s.clients_connected - 1 }) h (path_of j) j s'
          (ground (arith, w, e))

close_clients-raised :
    (path_of : ℕ → Bytes) (activates : ℕ → Bool) (source : ℕ) (clients : Dict ℕ ℕ) (s : Server)
    → is_empty clients ≡ false
    → has_source (path_of source) source s ≡ true
    → (s' : Server) × (close_clients activates path_of clients s ≡ raised s')
      × (has_source (path_of source) source s' ≡ true)
unfolding close_clients
close_clients-raised path_of activates source [] s h k = absurd (ground (arith, h))
close_clients-raised path_of activates source ((fd, client) ∷ cs) s h k =
    go (remove_client path_of fd client s) refl
  where
    go :
        (o : Option Server)
        → remove_client path_of fd client s ≡ o
        → (s' : Server) × (close_clients activates path_of ((fd, client) ∷ cs) s ≡ raised s')
          × (has_source (path_of source) source s' ≡ true)
    go none e = (s, ground (arith, e), k)
    go (some s') e = (
      s',
      ground (arith, e),
      remove_client-has_source path_of (path_of source) source fd client s s' k e,
    )

-- The only source of a path, with a client and no keepalive, is never removed in one go: once a client is
-- closed, remove_source ends with an exception, and the source is still in the table.
pub remove_source-raised :
    (activates : ℕ → Bool) (path_of : ℕ → Bytes) (keepalive : Option ℕ) (source : ℕ) (s : Server)
    (clients : Dict ℕ ℕ)
    → lookup (path_of source) s.sources ≡ some ((source, clients) ∷ [])
    → is_empty clients ≡ false
    → is_off keepalive ≡ true
    → (s' : Server) × (remove_source activates path_of keepalive source s ≡ raised s')
      × (has_source (path_of source) source s' ≡ true)
unfolding remove_source remove_last lookup
remove_source-raised activates path_of keepalive source s clients e n k =
    let (s', c, h) =
      close_clients-raised path_of activates source clients s n (ground (arith, e)) in
    (s', off keepalive s' k c, h)
  where
    off :
        (keepalive : Option ℕ) (s' : Server)
        → is_off keepalive ≡ true
        → close_clients activates path_of clients s ≡ raised s'
        → remove_source activates path_of keepalive source s ≡ raised s'
    off none s' k c = ground (arith, e, c)
    off (some m) s' k c = ground (arith, e, c, k)
