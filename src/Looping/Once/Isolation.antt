-- ===== src/Looping/Once/Isolation.antt =====
-- savate/looping.py: what becomes of an exception that a handler raises in `once`.
use mathlib.Core.Path.{subst}
use savate.Prelude.{
  Bool-cases, Option, [], arith, inl, inr, nat_eq, none, refl, some, true, ℕ, ◌∷◌, ◌≡◌, ◌≢◌, ◌⊎◌,
}
use savate.Looping.Once.{
  Ended, Fileno, Handlers, Method, calling, close_handler, deleted, descriptor, dispatch, ebadf,
  ended, escaped, merge_eventlists, once, poller_error, serve, take_out,
}
use savate.Dict.{Dict, lookup, remove}
use savate.Dict.Laws.{lookup-remove}
use savate.Looping.{IoLoop}
use savate.Looping.Watching.{Agrees, run_watches, unregister-some}

module _ (handlers : Handlers) where
  open handlers use {World}

  -- Taking a handler out cannot end: its socket is deleted, or it has one and its close raises.
  abbrev pub GivesUp : ℕ → World → Type 0
  GivesUp handler w =
      (handlers.fileno handler w ≡ deleted)
      ⊎ ((handlers.fileno handler w ≢ deleted) × ((handlers.close handler w).raises ≡ true))

  -- A handler, what it was called with, and the state then: it raised, and by then its socket was deleted, or
  -- its close, called right after, raises too.
  abbrev pub Excuse : Type 0
  Excuse =
      (handler eventmask : ℕ) × (w : World) × ((handlers.handle_event handler eventmask w).raises
        ≡ true)
      × GivesUp handler (handlers.handle_event handler eventmask w).world

  abbrev pub IsServed : Ended handlers → Type 0
  IsServed (ended w l) = Agrees l
  IsServed (escaped w l) = Agrees l × Excuse
  IsServed poller_error = ⊥

  Continues : (World → IoLoop → Ended handlers) → Type 0
  Continues rest = (w : World) (l : IoLoop) → Agrees l → IsServed (rest w l)

  calling-IsServed :
      (m : Method World) (l : IoLoop) (returns excepts : IoLoop → Ended handlers)
      → Agrees l
      → ((l' : IoLoop) → Agrees l' → IsServed (returns l'))
      → ((l' : IoLoop) → m.raises ≡ true → Agrees l' → IsServed (excepts l'))
      → IsServed (calling handlers m l returns excepts)
  unfolding calling
  calling-IsServed m l returns excepts a f g =
      let (l', e, b) = run_watches m.calls l a in
      elim (Bool-cases m.raises) [
        | inl r ↦
            let same : excepts l' ≡ calling handlers m l returns excepts =
              rw (calling, e, r) refl in
            subst (λ q. IsServed q) same (g l' r b)
        | inr r ↦
            let same : returns l' ≡ calling handlers m l returns excepts =
              rw (calling, e, r) refl in
            subst (λ q. IsServed q) same (f l' b)
      ]

  close_handler-IsServed :
      (handler : ℕ) (w : World) (l : IoLoop) (rest : World → IoLoop → Ended handlers)
      → Agrees l
      → Continues rest
      → (((handlers.close handler w).raises ≡ true) → Excuse)
      → IsServed (close_handler handlers handler w l rest)
  unfolding close_handler Continues
  close_handler-IsServed handler w l rest a k x =
      let m = handlers.close handler w in
      calling-IsServed m l (λ l'. rest m.world l') (λ l'. escaped m.world l') a
        (λ l' b. k m.world l' b) (λ l' r b. (b, x r))

  take_out-IsServed :
      (handler : ℕ) (w : World) (l : IoLoop) (rest : World → IoLoop → Ended handlers)
      → Agrees l
      → Continues rest
      → (GivesUp handler w → Excuse)
      → IsServed (take_out handlers handler w l rest)
  unfolding take_out
  take_out-IsServed handler w l rest a k x = go (handlers.fileno handler w) refl
    where
      go :
          (f : Fileno)
          → handlers.fileno handler w ≡ f
          → IsServed (take_out handlers handler w l rest)
      go deleted e =
          let same : escaped w l ≡ take_out handlers handler w l rest = rw (e, take_out) refl in
          subst (λ q. IsServed q) same (a, x (inl e))
      go ebadf e =
          let same : close_handler handlers handler w l rest ≡ take_out handlers handler w l rest =
            rw (e, take_out) refl in
          subst (λ q. IsServed q) same
            (close_handler-IsServed handler w l rest a k
              (λ r. x (inr (λ d. ground (arith, e, d), r))))
      go (descriptor fd) e =
          let (l', q, b) = unregister-some (some fd) l a in
          let same : close_handler handlers handler w l' rest ≡ take_out handlers handler w l rest =
            rw (e, q, take_out) refl in
          subst (λ q. IsServed q) same
            (close_handler-IsServed handler w l' rest b k
              (λ r. x (inr (λ d. ground (arith, e, d), r))))

  remove-Agrees :
      (fd : ℕ) (l : IoLoop)
      → Agrees l
      → lookup fd l.handlers ≡ none
      → Agrees (record l { poller = remove fd l.poller })
  remove-Agrees fd l a e j = ground (arith, lookup-remove fd j l.poller, a j, e)

  serve-IsServed :
      (fd eventmask : ℕ) (w : World) (l : IoLoop) (rest : World → IoLoop → Ended handlers)
      → Agrees l
      → Continues rest
      → IsServed (serve handlers fd eventmask w l rest)
  unfolding serve Continues
  serve-IsServed fd eventmask w l rest a k = go (lookup fd l.handlers) refl
    where
      go :
          (o : Option ℕ)
          → lookup fd l.handlers ≡ o
          → IsServed (serve handlers fd eventmask w l rest)
      go none e =
          let same : rest w (record l { poller = remove fd l.poller })
              ≡ serve handlers fd eventmask w l rest =
            rw (e, serve) refl in
          subst (λ q. IsServed q) same
            (k w (record l { poller = remove fd l.poller }) (remove-Agrees fd l a e))
      go (some handler) e =
          let m = handlers.handle_event handler eventmask w in
          let same : calling handlers m l (λ l'. rest m.world l')
                (λ l'. take_out handlers handler m.world l' rest)
              ≡ serve handlers fd eventmask w l rest =
            rw (e, serve) refl in
          subst (λ q. IsServed q) same
            (calling-IsServed m l (λ l'. rest m.world l')
              (λ l'. take_out handlers handler m.world l' rest) a (λ l' b. k m.world l' b)
              (λ l' r b.
                take_out-IsServed handler m.world l' rest b k (λ g. (handler, eventmask, w, r, g))))

  dispatch-IsServed : (events : Dict ℕ ℕ) → Continues (λ w l. dispatch handlers events w l)
  unfolding dispatch Continues
  dispatch-IsServed [] w l a = a
  dispatch-IsServed ((fd, eventmask) ∷ events) w l a =
      serve-IsServed fd eventmask w l (λ w' l'. dispatch handlers events w' l') a
        (dispatch-IsServed events)

  -- From a loop where the poller watches exactly the descriptors that have a handler, and for any events,
  -- `once` leaves such a loop, and no call on the poller inside a handler fails. An exception leaves `once`
  -- only if some handler raised one, and either that handler had deleted its socket by then, or it had not
  -- and its close, called in the state in which the handler left the program, raises. The poller keeps a
  -- descriptor until it is unregistered.
  pub once-IsServed :
      (events_list : Dict ℕ ℕ) (w : World) (l : IoLoop)
      → Agrees l
      → IsServed (once handlers events_list w l)
  unfolding once Continues
  once-IsServed events_list w l a =
      dispatch-IsServed (merge_eventlists events_list l.injected_events) w
        (record l { injected_events = [] }) a
