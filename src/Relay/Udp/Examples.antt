-- ===== src/Relay/Udp/Examples.antt =====
-- Two datagrams that are not enough.
use savate.Relay.Udp.{handle_event, waits}
use savate.Relay.Udp.Starting.{handle_event-Answers, more, nothing, nothing_left}
use savate.Prelude.{Bytes, List, [], arith, refl, ◌∷◌, ◌≡◌}
use savate.Relay.{has_pollin}
use savate.Server.Request.{Received, again, bytes}

abbrev queued : List Bytes → Received × List Bytes
queued [] = (again, [])
queued (b ∷ bs) = (bytes b, bs)

abbrev datagrams : List Bytes
datagrams = (3 ∷ 4 ∷ []) ∷ (5 ∷ []) ∷ []

handle_event-Answers_example :
    handle_event queued 3 1 (1 ∷ 2 ∷ []) datagrams ≡ waits (1 ∷ 2 ∷ 3 ∷ 4 ∷ 5 ∷ []) []
handle_event-Answers_example =
    handle_event-Answers queued 3 1 (1 ∷ 2 ∷ []) datagrams [] datagrams
      (waits (1 ∷ 2 ∷ 3 ∷ 4 ∷ 5 ∷ []) []) (unfold has_pollin in refl)
      (more refl (more refl nothing)) (omega arith) (omega arith) (nothing_left refl)
