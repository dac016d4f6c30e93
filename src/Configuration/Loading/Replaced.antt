-- ===== src/Configuration/Loading/Replaced.antt =====
-- savate/configuration.py: the handlers and the limit after a reload.
use mathlib.Core.Path.{subst}
use savate.Configuration
use savate.Configuration.Reload
use savate.Configuration.{Relays}
use savate.Configuration.Reload.{Reloaded, bad_config, reconfigure, reloaded}
use savate.Configuration.Loading.{
  Config, Entry, Handlers, Limit, Loaded, Outcome, Reconfigured, add_module, broken,
  configure_authorization, configure_limits, configure_stats, configure_status, configured, create,
  drop_handlers, made, not_int, number, reconfigure_server, reconfigured, refused, reload_handlers,
  rsplit_dot, then_do, then_relays, with_close,
}
use savate.Prelude.{
  Bool, Bytes, List, Option, [], ap, append-nil, append_assoc, arith, none, refl, same_bytes_iff,
  some, sym, ℕ, ◌++◌, ◌∙◌, ◌∷◌, ◌≡◌,
}
use savate.Dict.{Dict, lookup, put}
use savate.Dict.Laws.{lookup-put}
use savate.Dict.Sums.{HasOnce}
use savate.Prelude.{bytes_eq}

module _ {H Args : Type 0} (load : Bytes → Bytes → Args → Loaded H) (closable : H → Bool) where
  -- An entry that names a class whose import and call give a handler.
  pub record Makes (entry : Entry Args) (h : H) : Type 0 where
    pub name : Bytes
    pub handler_module : Bytes
    pub handler_class : Bytes
    pub is_named : entry.handler ≡ some name
    pub is_split : rsplit_dot name ≡ some (handler_module, handler_class)
    pub is_made : load handler_module handler_class entry.args ≡ made h

  abbrev pub AllMake : List (Entry Args) → List H → Type 0
  AllMake [] [] = Unit
  AllMake [] (h ∷ hs) = ⊥
  AllMake (entry ∷ entries) [] = ⊥
  AllMake (entry ∷ entries) (h ∷ hs) = Makes entry h × AllMake entries hs

  abbrev pub AllMakeAt : Dict Bytes (Entry Args) → Dict Bytes H → Type 0
  AllMakeAt [] [] = Unit
  AllMakeAt [] (b ∷ bs) = ⊥
  AllMakeAt (a ∷ es) [] = ⊥
  AllMakeAt ((path, entry) ∷ es) ((p, h) ∷ bs) = (path ≡ p) × Makes entry h × AllMakeAt es bs

  pub create-Makes :
      (entry : Entry Args) (h : H) (s : Handlers H) (next : H → Handlers H → Outcome H)
      (m : Makes entry h)
      → create load closable entry s next ≡ next h (add_module load closable m.handler_module s)
  unfolding create
  create-Makes entry h s next m = rw (create, m.is_named, m.is_split, m.is_made) refl

  configure_authorization-AllMake :
      (entries : List (Entry Args)) (hs : List H) (s : Handlers H)
      → AllMake entries hs
      → (s' : Handlers H) × (configure_authorization load closable entries s ≡ configured s')
        × (s'.auth_handlers ≡ s.auth_handlers ++ hs)
        × (s'.status_handlers ≡ s.status_handlers)
        × (s'.statistics_handlers ≡ s.statistics_handlers)
        × (s'.closed ≡ s.closed)
        × (s'.clients_limit ≡ s.clients_limit)
  unfolding configure_authorization add_module
  configure_authorization-AllMake [] [] s a =
      (s, refl, sym (append-nil s.auth_handlers), refl, refl, refl, refl)
  configure_authorization-AllMake [] (h ∷ hs) s a = absurd a
  configure_authorization-AllMake (entry ∷ entries) [] s a = absurd a
  configure_authorization-AllMake (entry ∷ entries) (h ∷ hs) s (m, a) =
      let s1 = add_module load closable m.handler_module s in
      let s2 : Handlers H = record s1 { auth_handlers = s1.auth_handlers ++ h ∷ [] } in
      let (s', e, x, y, z, c, k) = configure_authorization-AllMake entries hs s2 a in
      (
        s',
        create-Makes entry h s
              (λ h s'.
                configure_authorization load closable entries
                  (record s' { auth_handlers = s'.auth_handlers ++ h ∷ [] }))
              m
            ∙ e,
        x ∙ append_assoc s.auth_handlers (h ∷ []) hs,
        y,
        z,
        c,
        k,
      )

  configure_stats-AllMake :
      (entries : List (Entry Args)) (hs : List H) (s : Handlers H)
      → AllMake entries hs
      → (s' : Handlers H) × (configure_stats load closable entries s ≡ configured s')
        × (s'.statistics_handlers ≡ s.statistics_handlers ++ hs)
        × (s'.auth_handlers ≡ s.auth_handlers)
        × (s'.status_handlers ≡ s.status_handlers)
        × (s'.closed ≡ s.closed)
        × (s'.clients_limit ≡ s.clients_limit)
  unfolding configure_stats add_module
  configure_stats-AllMake [] [] s a =
      (s, refl, sym (append-nil s.statistics_handlers), refl, refl, refl, refl)
  configure_stats-AllMake [] (h ∷ hs) s a = absurd a
  configure_stats-AllMake (entry ∷ entries) [] s a = absurd a
  configure_stats-AllMake (entry ∷ entries) (h ∷ hs) s (m, a) =
      let s1 = add_module load closable m.handler_module s in
      let s2 : Handlers H = record s1 { statistics_handlers = s1.statistics_handlers ++ h ∷ [] } in
      let (s', e, x, y, z, c, k) = configure_stats-AllMake entries hs s2 a in
      (
        s',
        create-Makes entry h s
              (λ h s'.
                configure_stats load closable entries
                  (record s' { statistics_handlers = s'.statistics_handlers ++ h ∷ [] }))
              m
            ∙ e,
        x ∙ append_assoc s.statistics_handlers (h ∷ []) hs,
        y,
        z,
        c,
        k,
      )

  -- What is at a path: from the new entries, or else as before.
  abbrev over : Option H → Option H → Option H
  over none before = before
  over (some h) before = some h

  configure_status-AllMakeAt :
      (entries : Dict Bytes (Entry Args)) (hs : Dict Bytes H) (s : Handlers H)
      → AllMakeAt entries hs
      → HasOnce hs
      → (s' : Handlers H) × (configure_status load closable entries s ≡ configured s')
        × ((p : Bytes)
            → lookup p s'.status_handlers ≡ over (lookup p hs) (lookup p s.status_handlers))
        × (s'.auth_handlers ≡ s.auth_handlers)
        × (s'.statistics_handlers ≡ s.statistics_handlers)
        × (s'.closed ≡ s.closed)
        × (s'.clients_limit ≡ s.clients_limit)
  unfolding configure_status add_module lookup
  configure_status-AllMakeAt [] [] s a o = (s, refl, λ p. refl, refl, refl, refl, refl)
  configure_status-AllMakeAt [] (b ∷ bs) s a o = absurd a
  configure_status-AllMakeAt (x ∷ es) [] s a o = absurd a
  configure_status-AllMakeAt ((path, entry) ∷ es) ((q, h) ∷ bs) s (same, m, a) (n, o) =
      let s1 = add_module load closable m.handler_module s in
      let s2 : Handlers H = record s1 { status_handlers = put path h s1.status_handlers } in
      let (s', e, x, y, z, c, k) = configure_status-AllMakeAt es bs s2 a o in
      (
        s',
        create-Makes entry h s
              (λ h s'.
                configure_status load closable es
                  (record s' { status_handlers = put path h s'.status_handlers }))
              m
            ∙ e,
        λ p. ground (
          arith,
          x p,
          same,
          n,
          lookup-put path p h s.status_handlers,
          same_bytes_iff q p,
          same_bytes_iff path p,
        ),
        y,
        z,
        c,
        k,
      )

  -- The limit that a value stands for.
  abbrev pub limit_of : Limit → Option ℕ
  limit_of (number n) = some n
  limit_of not_int = none

  -- What a reload does to the handlers, those that it closes included.
  abbrev pub IsReplaced : List H → List H → Dict Bytes H → Handlers H → Handlers H → Type 0
  IsReplaced auth stats status s s' =
      (s'.auth_handlers ≡ auth)
      × ((p : Bytes) → lookup p s'.status_handlers ≡ lookup p status)
      × (s'.statistics_handlers ≡ stats)
      × (s'.closed
          ≡ (s.closed ++ with_close load closable s.auth_handlers)
            ++ with_close load closable s.statistics_handlers)

  over-nil : (p : Bytes) (o : Option H) → over o (lookup p []) ≡ o
  unfolding lookup
  over-nil p none = refl
  over-nil p (some h) = refl

  reload_handlers-Makes :
      (conf : Config Args) (auth stats : List H) (status : Dict Bytes H) (s : Handlers H)
      → AllMake conf.auth auth
      → AllMakeAt conf.status status
      → HasOnce status
      → AllMake conf.statistics stats
      → (s' : Handlers H) × (reload_handlers load closable conf s ≡ configured s')
        × IsReplaced auth stats status s s'
        × (s'.clients_limit ≡ s.clients_limit)
  unfolding reload_handlers drop_handlers then_do
  reload_handlers-Makes conf auth stats status s a b o c =
      let s0 = drop_handlers load closable s in
      let (s1, e1, x1, y1, z1, c1, k1) = configure_authorization-AllMake conf.auth auth s0 a in
      let (s2, e2, x2, y2, z2, c2, k2) = configure_status-AllMakeAt conf.status status s1 b o in
      let (s3, e3, x3, y3, z3, c3, k3) = configure_stats-AllMake conf.statistics stats s2 c in
      (
        s3,
        rw (reload_handlers, then_do, e1, e2, e3) refl,
        (
          y3 ∙ y2 ∙ x1,
          λ p.
              ap (λ d. lookup p d) z3
              ∙ x2 p
              ∙ ap (λ d. over (lookup p status) (lookup p d)) y1
              ∙ over-nil p (lookup p status),
          x3 ∙ ap (λ l. l ++ stats) (z2 ∙ z1),
          c3 ∙ c2 ∙ c1,
        ),
        k3 ∙ k2 ∙ k1,
      )

  -- How the whole ends, for the end of the part about relays: only a part that ends well sets the limit.
  abbrev pub EndsAs : Limit → Handlers H → Reloaded → Reconfigured H → Type 0
  EndsAs limit s (reloaded relays) x =
      x ≡ reconfigured (record s { clients_limit = limit_of limit }) relays
  EndsAs limit s (bad_config relays) x = x ≡ refused s relays
  EndsAs limit s Reload.failed x = x ≡ broken

  then_relays-EndsAs :
      (limit : Limit) (s : Handlers H) (r : Reloaded)
      → EndsAs limit s r (then_relays load closable limit r s)
  unfolding then_relays configure_limits
  then_relays-EndsAs (number n) s (reloaded relays) = refl
  then_relays-EndsAs not_int s (reloaded relays) = refl
  then_relays-EndsAs limit s (bad_config relays) = refl
  then_relays-EndsAs limit s Reload.failed = refl

  -- In a reload in which every entry names a class that gives a handler, with other paths for other status
  -- entries, the server has exactly the new handlers for authorization and statistics, in their order, and
  -- for each path the new status handler or none, whatever it had before. The old handlers of authorization
  -- and statistics that can be closed have been, in order; of the status handlers none has. The reload ends
  -- as its part about the relays does: with the new limit where that ends well, and with the limit from
  -- before where it is a BadConfig.
  pub reconfigure_server-IsReplaced :
      (is_udp : Bytes → Bool) (getaddrinfo : Bytes → List ℕ) (connects : Bytes → Option ℕ → Bool)
      (conf : Config Args) (mounts : Configuration.Config) (relays : Relays) (auth stats : List H)
      (status : Dict Bytes H) (s : Handlers H)
      → AllMake conf.auth auth
      → AllMakeAt conf.status status
      → HasOnce status
      → AllMake conf.statistics stats
      → (s' : Handlers H) × IsReplaced auth stats status s s'
        × (s'.clients_limit ≡ s.clients_limit)
        × EndsAs conf.clients_limit s'
            (reconfigure is_udp getaddrinfo connects mounts relays)
            (reconfigure_server load closable is_udp getaddrinfo connects conf mounts s relays)
  unfolding reconfigure_server
  reconfigure_server-IsReplaced is_udp getaddrinfo connects conf mounts relays auth stats status s a
        b o c =
      let (s', e, i, k) = reload_handlers-Makes conf auth stats status s a b o c in
      let r = reconfigure is_udp getaddrinfo connects mounts relays in
      let same : then_relays load closable conf.clients_limit r s'
          ≡ reconfigure_server load closable is_udp getaddrinfo connects conf mounts s relays =
        rw (reconfigure_server, e) refl in
      (
        s',
        i,
        k,
        subst (λ x. EndsAs conf.clients_limit s' r x) same
            (then_relays-EndsAs conf.clients_limit s' r),
      )
