-- ===== src/Relay/Reconnecting.antt =====
-- savate/relay.py, HTTPRelay: `connect` called again by on_demand_activate.
use savate.Relay.{
  HttpRelay, connect, handle_event, handle_response, handle_response_next, has_pollin, run, stays,
}
use savate.Prelude.{Bool, Bytes, List, [], ap, arith, false, refl, some, ℕ, ◌∷◌, ◌≡◌}
use savate.BufferEvent.{Socket}
use savate.Handlers.{pollout}
use savate.Server.Request.{Parser, Peer}

abbrev pub WithoutPollin : List (ℕ × ℕ) → Type 0
WithoutPollin [] = Unit
WithoutPollin ((m, so_error) ∷ events) = (has_pollin m ≡ false) × WithoutPollin events

module _ (sock : Socket) (peer : Peer) (http : Parser) (status_code : http.State → ℕ)
    (undecodable : http.State → Bool) (new_parser : http.State) (request : Bytes) where
  abbrev R : Type 0
  R = HttpRelay sock peer http status_code undecodable new_parser request

  handle_event-waits :
      (m so_error : ℕ) (r : R)
      → r.handling ≡ handle_response_next
      → has_pollin m ≡ false
      → handle_event sock peer http status_code undecodable new_parser request m so_error r
        ≡ stays r
  unfolding handle_event handle_response
  handle_event-waits m so_error r h n = ground (arith, h, n)

  run-waits :
      (events : List (ℕ × ℕ)) (r : R)
      → r.handling ≡ handle_response_next
      → WithoutPollin events
      → run sock peer http status_code undecodable new_parser request events r ≡ stays r
  unfolding run
  run-waits [] r h n = refl
  run-waits ((m, so_error) ∷ events) r h (n, ns) =
      ground (arith, handle_event-waits m so_error r h n, run-waits events r h ns)

  -- A relay that had its response and connects again, with success, is watched for room in its new socket,
  -- but no events without POLLIN, POLLOUT among them or not, change anything: its request is not sent.
  pub run-connect :
      (events : List (ℕ × ℕ)) (error : ℕ) (out : sock.State) (inp : peer.State) (r r' : R)
      → r.handling ≡ handle_response_next
      → connect sock peer http status_code undecodable new_parser request error out inp r ≡ stays r'
      → WithoutPollin events
      → (run sock peer http status_code undecodable new_parser request events r' ≡ stays r')
        × (r'.watched ≡ some pollout)
        × (sock.wire r'.socket ≡ sock.wire out)
  unfolding connect
  run-connect events error out inp r r' h c n = (
    run-waits events r' (ground (arith, h, c)) n,
    ground (arith, c),
    ap (λ o. sock.wire o) (ground (arith, c)),
  )
