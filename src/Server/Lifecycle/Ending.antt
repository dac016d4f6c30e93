-- ===== src/Server/Lifecycle/Ending.antt =====
-- The end of the server: the turn after which it serves no more.
use mathlib.Core.Path.{subst}
use savate.Server.Lifecycle.{
  Served, Signal, State, TcpServer, Turn, Turned, died, died_reloading, dies, dies_reloading, ended,
  goes_on, graceful_stop, handle_signal, handle_signals, is_serving, reload, reload_config,
  restart_all, restart_relays, running, serve_forever, serving, shutting_down, stop, stopped, turn,
}
use savate.Server.Lifecycle.Relaying.{restart_relays-reloading}
use savate.Prelude.{
  Bool, Bool-cases, Bytes, List, Option, [], arith, false, inl, inr, none, refl, some, sym, true, ℕ,
  ◌++◌, ◌∙◌, ◌∷◌, ◌≡◌,
}
use savate.Configuration.{Config}
use savate.Configuration.Reload.{Reloaded, bad_config, failed, reconfigure, reloaded}

-- The state that signals leave, from a state.
abbrev pub commanded : State → List Signal → State
commanded q [] = q
commanded q (stop ∷ gs) = commanded stopped gs
commanded q (graceful_stop ∷ gs) = commanded shutting_down gs
commanded q (reload ∷ gs) = commanded q gs

abbrev pub state_after : State → List Turn → State
state_after q [] = q
state_after q (t ∷ ts) = state_after (commanded q t.signals) ts

-- A state that ends the server, given whether a client is left.
abbrev pub IsOver : Bool → State → Type 0
IsOver any_client running = ⊥
IsOver any_client stopped = Unit
IsOver any_client shutting_down = any_client ≡ false

abbrev pub IsServing : Served → Type 0
IsServing (ended s) = ⊥
IsServing (died s) = ⊥
IsServing (serving s) = Unit
IsServing died_reloading = ⊥

is_serving-IsOver : (c : Bool) (q : State) → IsOver c q → is_serving c q ≡ false
unfolding is_serving
is_serving-IsOver c running h = absurd h
is_serving-IsOver c stopped h = refl
is_serving-IsOver c shutting_down h = h

handle_signals-commanded :
    (gs : List Signal) (s s' : TcpServer)
    → handle_signals gs s ≡ goes_on s'
    → s'.state ≡ commanded s.state gs
unfolding handle_signals handle_signal
handle_signals-commanded [] s s' e = ground (arith, e)
handle_signals-commanded (stop ∷ gs) s s' e =
    handle_signals-commanded gs (record s { state = stopped }) s' e
handle_signals-commanded (reload ∷ gs) s s' e =
    handle_signals-commanded gs (record s { reloading = true }) s' e
handle_signals-commanded (graceful_stop ∷ gs) s s' e = elim (Bool-cases s.listening) [
  | inl l ↦
      let k =
        handle_signals-commanded gs (record s { state = shutting_down; listening = false }) s' in
      k (ground (arith, l, e))
  | inr l ↦ absurd (ground (arith, l, e))
]

module _ (is_udp : Bytes → Bool) (getaddrinfo : Bytes → List ℕ)
    (connects : Bytes → Option ℕ → Bool) where
  reload_config-state :
      (config : Option Config) (s s' : TcpServer)
      → reload_config is_udp getaddrinfo connects config s ≡ goes_on s'
      → s'.state ≡ s.state
  unfolding reload_config
  reload_config-state none s s' e = elim (Bool-cases s.reloading) [
    | inl r ↦ ground (arith, r, e)
    | inr r ↦ ground (arith, r, e)
  ]
  reload_config-state (some conf) s s' e =
      go (reconfigure is_udp getaddrinfo connects conf s.relays) refl s.reloading refl
    where
      go :
          (o : Reloaded)
          → reconfigure is_udp getaddrinfo connects conf s.relays ≡ o
          → (b : Bool) → s.reloading ≡ b
          → s'.state ≡ s.state
      go o h false r = ground (arith, r, e)
      go (reloaded x) h true r = ground (arith, r, h, e)
      go (bad_config x) h true r = ground (arith, r, h, e)
      go failed h true r = absurd (ground (arith, r, h, e))

  turn-state :
      (t : Turn) (s s' : TcpServer)
      → turn is_udp getaddrinfo connects t s ≡ goes_on s'
      → s'.state ≡ commanded s.state t.signals
  unfolding turn
  turn-state t s s' e = go (handle_signals t.signals s1) refl
    where
      s1 : TcpServer
      s1 = record s { relays = restart_all t.now t.closing s.relays }

      after :
          (s2 : TcpServer)
          → handle_signals t.signals s1 ≡ goes_on s2
          → (o : Turned) → restart_relays is_udp getaddrinfo connects t.now s2 ≡ o
          → s'.state ≡ commanded s.state t.signals
      after s2 h (dies x) r = absurd (ground (arith, h, r, e))
      after s2 h dies_reloading r = absurd (ground (arith, h, r, e))
      after s2 h (goes_on s3) r =
          reload_config-state t.config s3 s' (ground (arith, h, r, e))
          ∙ (restart_relays-reloading is_udp getaddrinfo connects t.now s2 s3 r).1
          ∙ handle_signals-commanded t.signals s1 s2 h

      go : (o : Turned) → handle_signals t.signals s1 ≡ o → s'.state ≡ commanded s.state t.signals
      go (dies x) h = absurd (ground (arith, h, e))
      go dies_reloading h = absurd (ground (arith, h, e))
      go (goes_on s2) h = after s2 h (restart_relays is_udp getaddrinfo connects t.now s2) refl

  abbrev serve : List Turn → Bool → TcpServer → Served
  serve ts c s = serve_forever is_udp getaddrinfo connects ts c s

  -- A server that is over does not look at the turns that come.
  serve_forever-IsOver :
      (ts : List Turn) (c : Bool) (s : TcpServer) → IsOver c s.state → serve ts c s ≡ ended s
  unfolding serve_forever
  serve_forever-IsOver [] c s h = rw (is_serving-IsOver c s.state h) refl
  serve_forever-IsOver (t ∷ ts) c s h = rw (is_serving-IsOver c s.state h) refl

  -- What is left of the turns, after the one that ends the server.
  abbrev EndsAt : List Turn → List Turn → Bool → TcpServer → Type 0
  EndsAt ts us c s = (serve (ts ++ us) c s ≡ serve ts c s) × ¬ IsServing (serve ts c s)

  -- One turn more in front of turns that end the server.
  EndsAt-cons :
      (t : Turn) (ts us : List Turn) (c : Bool) (s : TcpServer)
      → ((s' : TcpServer)
          → turn is_udp getaddrinfo connects t s ≡ goes_on s'
          → EndsAt ts us t.any_client s')
      → EndsAt (t ∷ ts) us c s
  unfolding serve_forever
  EndsAt-cons t ts us c s ih =
      go (is_serving c s.state) refl (turn is_udp getaddrinfo connects t s) refl
    where
      Goal : Type 0
      Goal = EndsAt (t ∷ ts) us c s

      go :
          (q : Bool)
          → is_serving c s.state ≡ q
          → (o : Turned) → turn is_udp getaddrinfo connects t s ≡ o
          → Goal
      go false q o e =
          let same : ended s ≡ serve (t ∷ ts) c s = ground (arith, q) in
          (ground (arith, q), subst (λ x. ¬ IsServing x) same (λ x. x))
      go true q dies_reloading e =
          let same : died_reloading ≡ serve (t ∷ ts) c s = ground (arith, q, e) in
          (ground (arith, q, e), subst (λ x. ¬ IsServing x) same (λ x. x))
      go true q (dies s1) e =
          let same : died s1 ≡ serve (t ∷ ts) c s = ground (arith, q, e) in
          (ground (arith, q, e), subst (λ x. ¬ IsServing x) same (λ x. x))
      go true q (goes_on s1) e =
          let (k, n) = ih s1 e in
          let same : serve ts t.any_client s1 ≡ serve (t ∷ ts) c s = ground (arith, q, e) in
          let more : serve (ts ++ us) t.any_client s1 ≡ serve ((t ∷ ts) ++ us) c s =
            ground (arith, q, e) in
          (sym more ∙ k ∙ same, subst (λ x. ¬ IsServing x) same n)

  -- When the signals of the turns up to a turn `t`, that one included, leave a server stopped, or shutting
  -- down with no client after `t`, the server serves no more: it has ended by then, or an exception has
  -- ended it, and the turns that would follow change nothing. This holds for any relays, reloads and clients.
  pub serve_forever-ends :
      (ts : List Turn) (t : Turn) (us : List Turn) (c : Bool) (s : TcpServer)
      → IsOver t.any_client (state_after s.state (ts ++ t ∷ []))
      → (serve_forever is_udp getaddrinfo connects ((ts ++ t ∷ []) ++ us) c s
          ≡ serve_forever is_udp getaddrinfo connects (ts ++ t ∷ []) c s)
        × ¬ IsServing (serve_forever is_udp getaddrinfo connects (ts ++ t ∷ []) c s)
  serve_forever-ends [] t us c s h = EndsAt-cons t [] us c s (λ s' e.
      let over = subst (λ q. IsOver t.any_client q) (sym (turn-state t s s' e)) h in
      let k = serve_forever-IsOver us t.any_client s' over in
      let n = serve_forever-IsOver [] t.any_client s' over in
      (k ∙ sym n, subst (λ x. ¬ IsServing x) (sym n) (λ x. x)))
  serve_forever-ends (u ∷ ts) t us c s h = EndsAt-cons u (ts ++ t ∷ []) us c s (λ s' e.
      serve_forever-ends ts t us u.any_client s' (
        subst (λ q. IsOver t.any_client (state_after q (ts ++ t ∷ []))) (sym (turn-state u s s' e))
          h))
