-- ===== src/Relay/Examples.antt =====
-- A relay whose server answers with a single byte, which ends the response.
use savate.BufferEvent
use savate.Relay.{
  Handling, HttpRelay, connect, einprogress, handle_connect_next, handle_response_next, has_pollin,
  init, run, stays,
}
use savate.Relay.Asking.{IsEnd, run-connected}
use savate.Relay.Reconnecting.{WithoutPollin, run-connect}
use savate.Prelude.{
  Bool, Bytes, [], ap, arith, false, length, not, refl, some, suc, sym, take, take_all, true, zero,
  ℕ, ◌++◌, ◌==◌, ◌∷◌, ◌≡◌, ◌≤◌,
}
use savate.BufferEvent.{Socket, sent}
use savate.Handlers.{pollout}
use savate.Server.Request.{Parser, Peer, Received, again, bytes, received}

open_bound : (s b : Bytes) → length b ≤ length b
open_bound s b = omega arith

open_wire : (s b : Bytes) → s ++ b ≡ s ++ take (length b) b
open_wire s b = ap (λ t. s ++ t) (sym (take_all (length b) b (omega arith)))

abbrev open_socket : Socket
open_socket = record {
  State = Bytes;
  send = λ s b. (sent (length b), s ++ b);
  wire = λ s. s;
  send_bound = open_bound;
  send_wire = open_wire;
}

-- Nothing to read, until the first byte comes.
abbrev one_byte : Bool → ℕ → Received × Bool
one_byte had zero = (again, had)
one_byte true (suc n) = (again, true)
one_byte false (suc n) = (bytes (0 ∷ []), true)

one_byte-bound : (s : Bool) (n : ℕ) → length (received (one_byte s n).0) ≤ n
one_byte-bound s zero = omega arith
one_byte-bound true (suc n) = omega arith
one_byte-bound false (suc n) = omega arith

abbrev server : Peer
server = record { State = Bool; recv = one_byte; recv_bound = one_byte-bound }

abbrev parser : Parser
parser = record {
  State = ℕ;
  execute = λ p b. length b;
  has_error = λ p. false;
  is_finished = λ p. not (p == 0);
}

abbrev ask : Bytes
ask = 71 ∷ 10 ∷ []

abbrev TestRelay : Type 0
TestRelay = HttpRelay open_socket server parser (λ p. 200) (λ p. false) 0 ask

abbrev waiting_relay : Handling → TestRelay
waiting_relay h = record {
  handling = h;
  socket = [];
  output_buffer = record { ready = true; buffer_queue = [] };
  response = record { request_buffer = []; request_size = 0; request_parser = 0; sock = false };
  watched = some pollout;
  inactivity = true;
  on_demand = true;
  od_source = false;
}

first-connect :
    connect open_socket server parser
      (λ p. 200)
      (λ p. false)
      0
      ask
      einprogress
      []
      false
      (init open_socket server parser (λ p. 200) (λ p. false) 0 ask true [] false)
    ≡ stays (waiting_relay handle_connect_next)
unfolding connect init BufferEvent.init
first-connect = refl

run-connected_example :
    IsEnd open_socket server parser
      (λ p. 200)
      (λ p. false)
      0
      ask
      []
      (run open_socket server parser
        (λ p. 200)
        (λ p. false)
        0
        ask
        ((4, 0) ∷ (1, 0) ∷ [])
        (waiting_relay handle_connect_next))
run-connected_example =
    run-connected open_socket server parser (λ p. 200) (λ p. false) 0 ask ((4, 0) ∷ (1, 0) ∷ [])
      true einprogress [] [] false false (waiting_relay handle_connect_next) first-connect

connect-again :
    connect open_socket server parser
      (λ p. 200)
      (λ p. false)
      0
      ask
      einprogress
      []
      false
      (waiting_relay handle_response_next)
    ≡ stays (waiting_relay handle_response_next)
unfolding connect
connect-again = refl

four_without : WithoutPollin ((4, 0) ∷ (4, 0) ∷ [])
unfolding has_pollin
four_without = (refl, (refl, tt))

run-connect_example :
    (run open_socket server parser
        (λ p. 200)
        (λ p. false)
        0
        ask
        ((4, 0) ∷ (4, 0) ∷ [])
        (waiting_relay handle_response_next)
      ≡ stays (waiting_relay handle_response_next))
    × (some 4 ≡ some pollout)
    × (◌≡◌ {A = Bytes} [] [])
run-connect_example =
    run-connect open_socket server parser (λ p. 200) (λ p. false) 0 ask ((4, 0) ∷ (4, 0) ∷ [])
      einprogress [] false (waiting_relay handle_response_next) (waiting_relay handle_response_next)
      refl connect-again four_without
