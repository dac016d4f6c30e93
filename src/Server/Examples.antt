-- ===== src/Server/Examples.antt =====
-- A request, read byte by byte.
use savate.Prelude.{Bool, Bytes, [], arith, false, length, refl, suc, zero, ℕ, ◌==◌, ◌||◌, ◌∷◌, ◌≤◌}
use savate.Server.Request.{HttpRequest, Parser, Peer, Received, again, bytes, handle_read, received}
use savate.Server.Request.Reading.{Read, handle_read-Read}

-- A peer that sends one byte a call, counting down from its state to the end of the stream.
countdown : ℕ → ℕ → Received × ℕ
countdown zero n = (bytes [], zero)
countdown (suc k) zero = (again, suc k)
countdown (suc k) (suc n) = (bytes (k ∷ []), k)

countdown-bound : (s n : ℕ) → length (received (countdown s n).0) ≤ n
unfolding countdown
countdown-bound zero n = omega arith
countdown-bound (suc k) zero = omega arith
countdown-bound (suc k) (suc n) = omega arith

abbrev peer : Peer
peer = record { State = ℕ; recv = countdown; recv_bound = countdown-bound }

-- A parser that is finished with the byte 0.
ends : Bytes → Bool
ends [] = false
ends (c ∷ s) = c == 0 || ends s

abbrev parser : Parser
parser = record {
  State = Bool;
  execute = λ p b. ends b;
  has_error = λ p. false;
  is_finished = λ p. p;
}

abbrev fresh : HttpRequest peer parser
fresh = record { request_buffer = []; request_size = 0; request_parser = false; sock = 3 }

handle_read-Read_example : Read peer parser fresh (handle_read peer parser fresh)
handle_read-Read_example = handle_read-Read peer parser fresh (refl, omega arith)
