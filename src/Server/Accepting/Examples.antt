-- ===== src/Server/Accepting/Examples.antt =====
-- Two connections wait; an event takes in the first.
use savate.Server.Accepting.{
  Accepted, Acceptor, accept_once, again, connection, handle_event, handled,
}
use savate.Prelude.{List, [], none, refl, ℕ, ◌∷◌, ◌≡◌}
use savate.Looping
use savate.Relay.{has_pollin}
use savate.Prelude.{nat_eq}

abbrev queued : List ℕ → Accepted × List ℕ
queued [] = (again, [])
queued (h ∷ hs) = (connection h, hs)

abbrev waiting : Acceptor (List ℕ)
waiting = record {
  loop = Looping.init;
  timeouts = record { timeouts = []; handlers_timeouts = []; armed = none };
  queue = 7 ∷ 8 ∷ [];
}

-- After a spurious wake-up, with nothing to accept, nothing is changed.
nothing_waits :
    handle_event queued (λ q. q) (λ h. h) (λ h. h) 3 1 (record waiting { queue = [] })
    ≡ handled (record waiting { queue = [] })
unfolding handle_event accept_once has_pollin
nothing_waits = refl
