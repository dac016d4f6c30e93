-- ===== src/Handlers/Examples.antt =====
-- A client on a socket that takes everything.
use savate.Prelude.{
  Bytes, List, [], ap, arith, length, refl, sym, take, take_all, ◌++◌, ◌∷◌, ◌≡◌, ◌≤◌,
}
use savate.Handlers.{Handler, init}
use savate.Handlers.Awake.{IsAwake, stream}
use savate.Handlers.Runs.{Input, IsServed, event, packet, packets, run, run-IsServed}
use savate.BufferEvent
use savate.BufferEvent.{Socket, sent}

open_bound : (s b : Bytes) → length b ≤ length b
open_bound s b = omega arith

open_wire : (s b : Bytes) → s ++ b ≡ s ++ take (length b) b
open_wire s b = ap (λ t. s ++ t) (sym (take_all (length b) b (omega arith)))

abbrev open_socket : Socket
open_socket = record {
  State = Bytes;
  send = λ s b. (sent (length b), s ++ b);
  wire = λ s. s;
  send_bound = open_bound;
  send_wire = open_wire;
}

abbrev fresh : Handler open_socket
fresh = init open_socket (1 ∷ 2 ∷ []) []

fresh-IsAwake : IsAwake open_socket fresh
unfolding init BufferEvent.init
fresh-IsAwake = record {
  waiting = λ c e. refl;
  idle = λ c e. absurd (ground (arith, e));
  timed = λ c t. absurd (ground (arith, t));
  gone = λ c. absurd (ground (arith, c));
}

abbrev life : List (Input open_socket)
life = packet (3 ∷ []) ∷ event 4 ∷ packet (4 ∷ []) ∷ []

run-IsServed_example :
    IsServed open_socket
      (stream open_socket fresh)
      (packets open_socket life)
      (run open_socket life fresh)
unfolding init
run-IsServed_example = run-IsServed open_socket life fresh refl fresh-IsAwake
