-- ===== src/Configuration/Adding/Once.antt =====
-- savate/configuration.py: configure_relays, run once and twice.
use savate.Prelude.{
  Bool, Bool-cases, Bytes, List, Option, [], arith, false, inl, inr, none, refl, same_bytes,
  same_bytes_refl, some, true, ℕ, ◌&&◌, ◌++◌, ◌||◌, ◌∷◌, ◌≡◌,
}
use savate.Configuration.{
  Config, Mount, Relay, Relays, convert_burst_size, get_default, in_index, indexed, waiting,
}
use savate.Configuration.Adding.{
  add_addresses, add_missing, add_mount, add_mounts, add_url, add_urls, configure_relays,
}
use savate.Configuration.Adding.Settled.{
  Added, Covers, IsSettling, add_missing-IsSettling, in_index-append, in_turn, in_turn-IsSettling,
  mem_url, nothing, nothing-IsSettling,
}

-- Whether a configuration's mounts have a source URL at a path.
abbrev pub wanted : List Mount → Bytes → Bytes → Bool
wanted [] u p = false
wanted (m ∷ mounts) u p =
    (same_bytes m.path p && mem_url u (get_default m.source_urls [])) || wanted mounts u p

module _ (is_udp : Bytes → Bool) (getaddrinfo : Bytes → List ℕ) (connects : Bytes → Option ℕ → Bool)
    (wants : Bytes → Bytes → Bool) where
  add_addresses-IsSettling :
      (r : Relay) (addresses : List ℕ)
      → wants r.url r.path ≡ true
      → IsSettling wants (λ index s. add_addresses is_udp getaddrinfo connects index r addresses s)
  unfolding add_addresses nothing in_turn
  add_addresses-IsSettling r [] w = nothing-IsSettling wants
  add_addresses-IsSettling r (a ∷ addresses) w =
      in_turn-IsSettling wants
        (λ index s.
          add_missing is_udp getaddrinfo connects index (record r { addr_info = some a }) s)
        (λ index s. add_addresses is_udp getaddrinfo connects index r addresses s)
        (add_missing-IsSettling is_udp getaddrinfo connects wants (record r { addr_info = some a })
          w)
        (add_addresses-IsSettling r addresses w)

  add_url-IsSettling :
      (resolve_all : Bool) (r : Relay)
      → wants r.url r.path ≡ true
      → IsSettling wants (λ index s. add_url is_udp getaddrinfo connects index resolve_all r s)
  unfolding add_url
  add_url-IsSettling resolve_all r w = elim (Bool-cases (is_udp r.url)) [
    | inl e ↦ rw e (
        add_missing-IsSettling is_udp getaddrinfo connects wants
          (record r { on_demand = false; keepalive = none }) w)
    | inr e ↦ elim (Bool-cases resolve_all) [
      | inl f ↦ rw (e, f) (add_addresses-IsSettling r (getaddrinfo r.url) w)
      | inr f ↦ rw (e, f) (add_missing-IsSettling is_udp getaddrinfo connects wants r w)
    ]
  ]

  add_urls-IsSettling :
      (resolve_all : Bool) (r : Relay) (urls : List Bytes)
      → ((u : Bytes) → mem_url u urls ≡ true → wants u r.path ≡ true)
      → IsSettling wants
          (λ index s. add_urls is_udp getaddrinfo connects index resolve_all r urls s)
  unfolding add_urls nothing in_turn
  add_urls-IsSettling resolve_all r [] w = nothing-IsSettling wants
  add_urls-IsSettling resolve_all r (url ∷ urls) w =
      in_turn-IsSettling wants
        (λ index s.
          add_url is_udp getaddrinfo connects index resolve_all (record r { url = url }) s)
        (λ index s. add_urls is_udp getaddrinfo connects index resolve_all r urls s)
        (add_url-IsSettling resolve_all (record r { url = url })
          (w url (ground (arith, same_bytes_refl url))))
        (add_urls-IsSettling resolve_all r urls (λ u h. w u (ground (arith, h))))

  add_mount-IsSettling :
      (conf : Config) (m : Mount)
      → ((u : Bytes) → mem_url u (get_default m.source_urls []) ≡ true → wants u m.path ≡ true)
      → IsSettling wants (λ index s. add_mount is_udp getaddrinfo connects index conf m s)
  unfolding add_mount get_default nothing
  add_mount-IsSettling conf m w =
      go m.source_urls refl (convert_burst_size (get_default m.burst_size conf.burst_size)) refl
    where
      go :
          (o : Option (List Bytes))
          → m.source_urls ≡ o
          → (b : Option (Option ℕ))
          → convert_burst_size (get_default m.burst_size conf.burst_size) ≡ b
          → IsSettling wants (λ index s. add_mount is_udp getaddrinfo connects index conf m s)
      go none e b c = rw e (nothing-IsSettling wants)
      go (some urls) e none c = λ index s s' q. absurd (ground (arith, e, c, q))
      go (some urls) e (some burst_size) c =
          rw (e, add_mount, c)
            (add_urls-IsSettling (get_default m.net_resolve_all conf.net_resolve_all)
              (record {
                url = [];
                path = m.path;
                addr_info = none;
                burst_size = burst_size;
                on_demand = get_default m.on_demand conf.on_demand;
                keepalive = get_default m.keepalive conf.keepalive;
              })
              urls (λ u h. w u (ground (arith, e, h))))

  pub add_mounts-IsSettling :
      (conf : Config) (mounts : List Mount)
      → ((u p : Bytes) → wanted mounts u p ≡ true → wants u p ≡ true)
      → IsSettling wants (λ index s. add_mounts is_udp getaddrinfo connects index conf mounts s)
  unfolding add_mounts nothing in_turn
  add_mounts-IsSettling conf [] w = nothing-IsSettling wants
  add_mounts-IsSettling conf (m ∷ mounts) w =
      in_turn-IsSettling wants (λ index s. add_mount is_udp getaddrinfo connects index conf m s)
        (λ index s. add_mounts is_udp getaddrinfo connects index conf mounts s)
        (add_mount-IsSettling conf m
          (λ u h. w u m.path (ground (arith, h, same_bytes_refl m.path))))
        (add_mounts-IsSettling conf mounts (λ u p h. w u p (ground (arith, h))))

module _ (is_udp : Bytes → Bool) (getaddrinfo : Bytes → List ℕ)
    (connects : Bytes → Option ℕ → Bool) where
  indexed-Covers : (rs : List Relay) (ws : List Relay) → Covers (rs ++ ws) rs
  indexed-Covers rs ws u p a h = ground (arith, h, in_index-append u p a rs ws)

  indexed-kept : (s s' : Relays) → Added (λ u p. true) s s' → Covers (indexed s') (indexed s)
  unfolding indexed
  indexed-kept s s' v u p a h = elim (Bool-cases (in_index u p a s.relays)) [
    | inl e ↦
        ground
          (arith, v.kept u p a e, in_index-append u p a s'.relays (waiting s'.relays_to_restart))
    | inr e ↦
        let old : in_index u p a (waiting s.relays_to_restart) ≡ true =
          ground (arith, e, h, in_index-append u p a s.relays (waiting s.relays_to_restart)) in
        let new : in_index u p a (waiting s'.relays_to_restart) ≡ true = rw v.restarts old in
        ground (arith, new, in_index-append u p a s'.relays (waiting s'.relays_to_restart))
  ]

  -- Where configure_relays ends normally, the same configuration a second time adds nothing and ends
  -- normally too.
  pub configure_relays_twice :
      (conf : Config) (s s' : Relays)
      → configure_relays is_udp getaddrinfo connects conf s ≡ some s'
      → configure_relays is_udp getaddrinfo connects conf s' ≡ some s'
  unfolding configure_relays indexed
  configure_relays_twice conf s s' e =
      let v =
        add_mounts-IsSettling is_udp getaddrinfo connects (λ u p. true) conf conf.mounts
          (λ u p h. refl) (indexed s) s s' e in
      v.again (indexed s') s' (λ u p a h. indexed-kept s s' v.added u p a h)
        (indexed-Covers s'.relays (waiting s'.relays_to_restart))
