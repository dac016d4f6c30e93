-- ===== src/Configuration/Loading/Refused.antt =====
-- savate/configuration.py: a reload with an authorization handler whose name is refused.
use savate.Configuration.Loading.{
  Config, Entry, Handlers, Loaded, add_module, configure_authorization, create, drop_handlers,
  reload_handlers, rsplit_dot, then_do, value_error,
}
use savate.Configuration.Loading.Replaced.{AllMake, create-Makes}
use savate.Prelude.{
  Bool, Bytes, List, [], append-nil, append_assoc, none, refl, some, sym, ◌++◌, ◌∙◌, ◌∷◌, ◌≡◌,
}

module _ {H Args : Type 0} (load : Bytes → Bytes → Args → Loaded H) (closable : H → Bool) where
  configure_authorization-refused :
      (good rest : List (Entry Args)) (bad : Entry Args) (name : Bytes) (hs : List H)
      (s : Handlers H)
      → AllMake load closable good hs
      → bad.handler ≡ some name
      → rsplit_dot name ≡ none
      → (s' : Handlers H) × (configure_authorization load closable (good ++ bad ∷ rest) s
          ≡ value_error s')
        × (s'.auth_handlers ≡ s.auth_handlers ++ hs)
        × (s'.status_handlers ≡ s.status_handlers)
        × (s'.statistics_handlers ≡ s.statistics_handlers)
  unfolding configure_authorization add_module create
  configure_authorization-refused [] rest bad name [] s a n d =
      (s, rw (create, n, d) refl, sym (append-nil s.auth_handlers), refl, refl)
  configure_authorization-refused [] rest bad name (h ∷ hs) s a n d = absurd a
  configure_authorization-refused (entry ∷ good) rest bad name [] s a n d = absurd a
  configure_authorization-refused (entry ∷ good) rest bad name (h ∷ hs) s (m, a) n d =
      let s1 = add_module load closable m.handler_module s in
      let s2 : Handlers H = record s1 { auth_handlers = s1.auth_handlers ++ h ∷ [] } in
      let (s', e, x, y, z) = configure_authorization-refused good rest bad name hs s2 a n d in
      (
        s',
        create-Makes load closable entry h s
              (λ h s'.
                configure_authorization load closable (good ++ bad ∷ rest)
                  (record s' { auth_handlers = s'.auth_handlers ++ h ∷ [] }))
              m
            ∙ e,
        x ∙ append_assoc s.auth_handlers (h ∷ []) hs,
        y,
        z,
      )

  -- Where a new configuration has an authorization handler whose name has no dot, a reload ends with the
  -- ValueError that serve_forever catches, and the server goes on with the authorization handlers before
  -- that one only, with no handler of the old configuration, and with no status or statistics handler. If it
  -- is the first, nothing is authorized any more.
  pub reload_handlers-refused :
      (conf : Config Args) (good rest : List (Entry Args)) (bad : Entry Args) (name : Bytes)
      (hs : List H) (s : Handlers H)
      → conf.auth ≡ good ++ bad ∷ rest
      → AllMake load closable good hs
      → bad.handler ≡ some name
      → rsplit_dot name ≡ none
      → (s' : Handlers H) × (reload_handlers load closable conf s ≡ value_error s')
        × (s'.auth_handlers ≡ hs)
        × (s'.status_handlers ≡ [])
        × (s'.statistics_handlers ≡ [])
  unfolding reload_handlers drop_handlers then_do
  reload_handlers-refused conf good rest bad name hs s c a n d =
      let s0 = drop_handlers load closable s in
      let (s1, e, x, y, z) = configure_authorization-refused good rest bad name hs s0 a n d in
      (s1, rw (reload_handlers, c, e, then_do) refl, x, y, z)
