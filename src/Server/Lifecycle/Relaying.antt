-- ===== src/Server/Lifecycle/Relaying.antt =====
-- Relays that close and are restarted, by weight: lists that weigh the same for every weight of a relay hold
-- the same relays, each as often.
use mathlib.Core.Path.{subst}
use savate.Server.Lifecycle.{
  Restarted, TcpServer, Turned, check_for_relay_restart, dies, dies_reloading, goes_on, pop_relay,
  refused, restart_all, restart_delay, restart_due, restart_relays, restarted,
}
use savate.Prelude.{
  Bool, Bytes, List, Option, [], ap, arith, false, ltb, none, refl, some, suc, sym, true, zero, ℕ,
  ◌++◌, ◌+◌, ◌∙◌, ◌∷◌, ◌≡◌, ◌≤◌,
}
use savate.Configuration.{Relay, Relays, indexed, waiting}

unfoldable pub sum_relays : (Relay → ℕ) → List Relay → ℕ
sum_relays w [] = 0
sum_relays w (r ∷ rs) = w r + sum_relays w rs

pub sum_relays-append :
    (w : Relay → ℕ) (rs qs : List Relay)
    → sum_relays w (rs ++ qs) ≡ sum_relays w rs + sum_relays w qs
unfolding sum_relays
sum_relays-append w [] qs = omega arith
sum_relays-append w (r ∷ rs) qs = omega (arith, sum_relays-append w rs qs)

-- The same relays are known, running or waiting, each as often.
abbrev pub SameRelays : Relays → Relays → Type 0
SameRelays s s' = (w : Relay → ℕ) → sum_relays w (indexed s') ≡ sum_relays w (indexed s)

-- One relay is missing.
abbrev pub WithoutOne : Relays → Relays → Type 0
WithoutOne s s' =
    (r : Relay) × ((w : Relay → ℕ) → sum_relays w (indexed s') + w r ≡ sum_relays w (indexed s))

-- Times of restart that grow, from `lo` to `hi`.
abbrev pub Times : ℕ → ℕ → List (ℕ × Relay) → Type 0
Times lo hi [] = Unit
Times lo hi ((t, r) ∷ ws) = (lo ≤ t) × (t ≤ hi) × Times t hi ws

waiting-append : (ws vs : List (ℕ × Relay)) → waiting (ws ++ vs) ≡ waiting ws ++ waiting vs
unfolding waiting
waiting-append [] vs = refl
waiting-append ((t, r) ∷ ws) vs = ap (λ l. r ∷ l) (waiting-append ws vs)

pub sum_relays-indexed :
    (w : Relay → ℕ) (s : Relays)
    → sum_relays w (indexed s) ≡ sum_relays w s.relays + sum_relays w (waiting s.relays_to_restart)
unfolding indexed
sum_relays-indexed w s = sum_relays-append w s.relays (waiting s.relays_to_restart)

Times-append :
    (lo hi hi' : ℕ) (ws : List (ℕ × Relay)) (r : Relay)
    → lo ≤ hi'
    → hi ≤ hi'
    → Times lo hi ws
    → Times lo hi' (ws ++ (hi', r) ∷ [])
Times-append lo hi hi' [] r k h u = (k, omega arith, tt)
Times-append lo hi hi' ((t, q) ∷ ws) r k h (a, b, u) =
    (a, omega arith, Times-append t hi hi' ws r (omega arith) h u)

Times-le : (lo hi hi' : ℕ) (ws : List (ℕ × Relay)) → hi ≤ hi' → Times lo hi ws → Times lo hi' ws
Times-le lo hi hi' [] h u = tt
Times-le lo hi hi' ((t, q) ∷ ws) h (a, b, u) = (a, omega arith, Times-le t hi hi' ws h u)

sum_relays-pop_relay :
    (w : Relay → ℕ) (place : ℕ) (rs : List Relay) (r : Relay) (qs : List Relay)
    → pop_relay place rs ≡ some (r, qs)
    → sum_relays w rs ≡ w r + sum_relays w qs
unfolding pop_relay sum_relays
sum_relays-pop_relay w place [] r qs e = absurd (ground (arith, e))
sum_relays-pop_relay w zero (x ∷ rs) r qs e = ground (arith, e)
sum_relays-pop_relay w (suc place) (x ∷ rs) r qs e =
    go (pop_relay place rs) refl (λ q ps h. sum_relays-pop_relay w place rs q ps h)
  where
    go :
        (o : Option (Relay × List Relay))
        → pop_relay place rs ≡ o
        → ((q : Relay) (ps : List Relay)
            → pop_relay place rs ≡ some (q, ps)
            → sum_relays w rs ≡ w q + sum_relays w ps)
        → sum_relays w (x ∷ rs) ≡ w r + sum_relays w qs
    go none h ih = absurd (ground (arith, e, h))
    go (some (q, ps)) h ih = ground (arith, e, h, ih q ps h)

-- Relays that are kept, with those that wait put off until a second after `now` at most.
pub record IsTended (lo hi : ℕ) (s s' : Relays) : Type 0 where
  pub same : SameRelays s s'
  pub times : Times lo hi s'.relays_to_restart

check_for_relay_restart-IsTended :
    (now lo hi place : ℕ) (s : Relays)
    → lo ≤ now + 1
    → hi ≤ now + 1
    → Times lo hi s.relays_to_restart
    → IsTended lo (now + 1) s (check_for_relay_restart now place s)
unfolding check_for_relay_restart waiting sum_relays
check_for_relay_restart-IsTended now lo hi place s k h v = go (pop_relay place s.relays) refl
  where
    go :
        (o : Option (Relay × List Relay))
        → pop_relay place s.relays ≡ o
        → IsTended lo (now + 1) s (check_for_relay_restart now place s)
    go none e =
        let same : s ≡ check_for_relay_restart now place s = ground (arith, e) in
        subst (λ t. IsTended lo (now + 1) s t) same
          (record { same = λ w. refl; times = Times-le lo hi (now + 1) s.relays_to_restart h v })
    go (some (r, rs)) e =
        let s' : Relays = record s {
          relays = rs;
          relays_to_restart = s.relays_to_restart ++ (now + restart_delay, r) ∷ [];
        } in
        let same : s' ≡ check_for_relay_restart now place s = ground (arith, e) in
        subst (λ t. IsTended lo (now + 1) s t) same
          (record {
            same = λ w. omega (
              arith,
              sum_relays-indexed w s,
              sum_relays-indexed w s',
              ap (sum_relays w)
                  (waiting-append s.relays_to_restart ((now + restart_delay, r) ∷ [])),
              sum_relays-append w (waiting s.relays_to_restart) (r ∷ []),
              sum_relays-pop_relay w place s.relays r rs e,
            );
            times = Times-append lo hi (now + 1) s.relays_to_restart r k h v;
          })

pub restart_all-IsTended :
    (now lo hi : ℕ) (places : List ℕ) (s : Relays)
    → lo ≤ now + 1
    → hi ≤ now + 1
    → Times lo hi s.relays_to_restart
    → IsTended lo (now + 1) s (restart_all now places s)
unfolding restart_all
restart_all-IsTended now lo hi [] s k h v = record {
  same = λ w. refl;
  times = Times-le lo hi (now + 1) s.relays_to_restart h v;
}
restart_all-IsTended now lo hi (place ∷ places) s k h v =
    let x = check_for_relay_restart-IsTended now lo hi place s k h v in
    let s1 = check_for_relay_restart now place s in
    let y = restart_all-IsTended now lo (now + 1) places s1 k (omega arith) x.times in
    record { same = λ w. y.same w ∙ x.same w; times = y.times }

-- What a part of a turn leaves of the relays of `s`.
abbrev pub Tends : ℕ → ℕ → Relays → Turned → Type 0
Tends now hi s (goes_on s') = IsTended now hi s s'.relays
Tends now hi s (dies s') = WithoutOne s s'.relays
Tends now hi s dies_reloading = ⊥

module _ (is_udp : Bytes → Bool) (getaddrinfo : Bytes → List ℕ)
    (connects : Bytes → Option ℕ → Bool) where
  abbrev due : ℕ → List (ℕ × Relay) → Relays → Restarted
  due now ws s = restart_due is_udp getaddrinfo connects now ws s

  -- What the restarts leave of the relays that run and of those that wait in a queue.
  abbrev Restarts : ℕ → ℕ → List (ℕ × Relay) → Relays → Restarted → Type 0
  Restarts now hi ws s (restarted s') =
      Times now hi s'.relays_to_restart
      × ((w : Relay → ℕ)
          → sum_relays w (indexed s') ≡ sum_relays w s.relays + sum_relays w (waiting ws))
  Restarts now hi ws s (refused s') =
      (r : Relay) × ((w : Relay → ℕ)
        → sum_relays w (indexed s') + w r ≡ sum_relays w s.relays + sum_relays w (waiting ws))

  restart_due-Restarts :
      (now lo hi : ℕ) (ws : List (ℕ × Relay)) (s : Relays)
      → Times lo hi ws
      → Restarts now hi ws s (due now ws s)
  unfolding restart_due waiting sum_relays
  restart_due-Restarts now lo hi [] s v =
      (tt, λ w. sum_relays-indexed w (record s { relays_to_restart = [] }))
  restart_due-Restarts now lo hi ((t, r) ∷ ws) s (a, b, v) =
      go (ltb t now) refl (connects r.url r.addr_info) refl (restart_due-Restarts now t hi ws s1 v)
    where
      s1 : Relays
      s1 = record s { relays = s.relays ++ r ∷ [] }

      more : (o : Restarted) → Restarts now hi ws s1 o → Restarts now hi ((t, r) ∷ ws) s o
      more (restarted s') (x, same) =
          (x, λ w. omega (arith, same w, sum_relays-append w s.relays (r ∷ [])))
      more (refused s') (q, same) =
          (q, λ w. omega (arith, same w, sum_relays-append w s.relays (r ∷ [])))

      Goal : Restarted → Type 0
      Goal o = Restarts now hi ((t, r) ∷ ws) s o

      go :
          (x : Bool)
          → ltb t now ≡ x
          → (y : Bool) → connects r.url r.addr_info ≡ y
          → Restarts now hi ws s1 (due now ws s1)
          → Goal (due now ((t, r) ∷ ws) s)
      go true m true n ih =
          let same : due now ws s1 ≡ due now ((t, r) ∷ ws) s = rw (m, n, restart_due) refl in
          subst Goal same (more (due now ws s1) ih)
      go true m false n ih =
          let same : refused (record s { relays_to_restart = ws }) ≡ due now ((t, r) ∷ ws) s =
            rw (m, n, restart_due) refl in
          subst Goal same
            (r, λ w. omega (arith, sum_relays-indexed w (record s { relays_to_restart = ws })))
      go false m y n ih =
          let same : restarted (record s { relays_to_restart = (t, r) ∷ ws })
              ≡ due now ((t, r) ∷ ws) s =
            rw (m, restart_due) refl in
          subst Goal same (
            (ground (arith, m), b, v),
            λ w. sum_relays-indexed w (record s { relays_to_restart = (t, r) ∷ ws }),
          )

  pub restart_relays-Tends :
      (now lo hi : ℕ) (s : TcpServer)
      → Times lo hi s.relays.relays_to_restart
      → Tends now hi s.relays (restart_relays is_udp getaddrinfo connects now s)
  unfolding restart_relays
  restart_relays-Tends now lo hi s v =
      go (due now s.relays.relays_to_restart s.relays) refl
        (restart_due-Restarts now lo hi s.relays.relays_to_restart s.relays v)
    where
      go :
          (o : Restarted)
          → due now s.relays.relays_to_restart s.relays ≡ o
          → Restarts now hi s.relays.relays_to_restart s.relays o
          → Tends now hi s.relays (restart_relays is_udp getaddrinfo connects now s)
      go (restarted s') e (x, same) =
          rw (restart_relays, e)
            (record { same = λ w. same w ∙ sym (sum_relays-indexed w s.relays); times = x })
      go (refused s') e (r, same) =
          rw (restart_relays, e) (r, λ w. same w ∙ sym (sum_relays-indexed w s.relays))

  pub restart_relays-reloading :
      (now : ℕ) (s s' : TcpServer)
      → restart_relays is_udp getaddrinfo connects now s ≡ goes_on s'
      → (s'.reloading ≡ s.reloading) × (s'.state ≡ s.state)
  unfolding restart_relays
  restart_relays-reloading now s s' e = go (due now s.relays.relays_to_restart s.relays) refl
    where
      go :
          (o : Restarted)
          → due now s.relays.relays_to_restart s.relays ≡ o
          → (s'.reloading ≡ s.reloading) × (s'.state ≡ s.state)
      go (restarted x) h = (ground (arith, h, e), ground (arith, h, e))
      go (refused x) h = absurd (ground (arith, h, e))
