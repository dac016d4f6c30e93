-- ===== src/FlvSource/Chunks.antt =====
-- savate/flv_source.py: handle_packet on packets that are put together.
use savate.Prelude.{
  Bytes, Option, append_assoc, arith, length, none, refl, some, suc, zero, ℕ, ◌++◌, ◌<◌, ◌∙◌, ◌≡◌,
}
use savate.FlvSource.{
  Error, FlvSource, Result, append_data, drain, err, handle_packet, ok, run, step, ◌>>=◌,
}
use savate.FlvSource.Steps.{Moves, extended, step-append, step-progress}

Moves-ok : (r : Result (Option FlvSource)) {s : FlvSource} → r ≡ ok (some s) → Moves r
Moves-ok r p = rw p tt

Moves-err : (r : Result (Option FlvSource)) {e : Error} → r ≡ err e → Moves r
Moves-err r p = rw p tt

-- More fuel than bytes makes no difference.
run-fuel :
    (f g : ℕ) (s : FlvSource)
    → length s.buffer_data < f
    → length s.buffer_data < g
    → run f s ≡ run g s
unfolding run
run-fuel zero g s h k = elim h [ ]
run-fuel (suc f) zero s h k = elim k [ ]
run-fuel (suc f) (suc g) s h k =
    go (step s) refl (λ s' lt. run-fuel f g s' (omega arith) (omega arith))
  where
    go :
        (r : Result (Option FlvSource))
        → step s ≡ r
        → ((s' : FlvSource) → length s'.buffer_data < length s.buffer_data → run f s' ≡ run g s')
        → run (suc f) s ≡ run (suc g) s
    go (err e) p again = rw (p, run)
    go (ok none) p again = rw (p, run)
    go (ok (some s')) p again = rw (p, run) (again s' (step-progress s s' p))

-- The loop as equations, with no fuel in sight.
drain-err : (s : FlvSource) (e : Error) → step s ≡ err e → drain s ≡ err e
unfolding drain run
drain-err s e p = rw (p, run)

drain-wait : (s : FlvSource) → step s ≡ ok none → drain s ≡ ok s
unfolding drain run
drain-wait s p = rw (p, run)

drain-step : (s s' : FlvSource) → step s ≡ ok (some s') → drain s ≡ drain s'
unfolding drain run
drain-step s s' p =
    rw (p, run)
      (run-fuel (length s.buffer_data) (suc (length s'.buffer_data)) s' (step-progress s s' p)
        (omega arith))

drain-append :
    (n : ℕ) (q : Bytes) (s : FlvSource)
    → length s.buffer_data < n
    → drain (append_data q s) ≡ (drain s >>= λ s'. drain (append_data q s'))
drain-append zero q s h = elim h [ ]
drain-append (suc n) q s h = go (step s) refl (λ s' lt. drain-append n q s' (omega arith))
  where
    go :
        (r : Result (Option FlvSource))
        → step s ≡ r
        → ((s' : FlvSource)
            → length s'.buffer_data < length s.buffer_data
            → drain (append_data q s') ≡ (drain s' >>= λ s₁. drain (append_data q s₁)))
        → drain (append_data q s) ≡ (drain s >>= λ s'. drain (append_data q s'))
    go (err e) p again =
        rw (drain-err s e p) (
          drain-err (append_data q s) e (step-append q s (Moves-err (step s) p) ∙ rw (p, extended)))
    go (ok none) p again = rw (drain-wait s p)
    go (ok (some s')) p again = rw (drain-step s s' p) (
        drain-step (append_data q s) (append_data q s')
          (step-append q s (Moves-ok (step s) p) ∙ rw (p, extended))
        ∙ again s' (step-progress s s' p))

append_data-append :
    (p q : Bytes) (s : FlvSource) → append_data (p ++ q) s ≡ append_data q (append_data p s)
unfolding append_data
append_data-append p q s = rw (append_assoc s.buffer_data p q)

-- Feeding two packets one after the other does what feeding them joined does: the same packets
-- published in the same order, the same state left, and the same error if the stream is bad.
pub handle_packet-append :
    (p q : Bytes) (s : FlvSource)
    → handle_packet (p ++ q) s ≡ (handle_packet p s >>= λ s'. handle_packet q s')
unfolding handle_packet
handle_packet-append p q s =
    rw append_data-append
      (drain-append (suc (length (append_data p s).buffer_data)) q (append_data p s) (omega arith))
