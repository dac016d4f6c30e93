-- ===== src/Relay/Udp/Starting.antt =====
-- savate/relay.py, UDPRelay: the start of a source.
use mathlib.Core.Path.{subst}
use savate.Relay.Udp.{
  Ended, by_bytes, fake_headers, handle_event, min_start_buffer, new_source, raised, receive, round,
  start, waits,
}
use savate.Prelude.{
  Bytes, List, [], append-nil, append_assoc, arith, false, join, leb, length, length-append, refl,
  some, suc, sym, true, zero, ℕ, ◌++◌, ◌<◌, ◌∷◌, ◌≡◌, ◌≤◌,
}
use savate.Dict.{lookup}
use savate.Sources.Receiving.{buffered_raw, find_source, sources_mapping}
use savate.Server.Request.{Received, again, bytes, failed}
use savate.Relay.{has_pollin}
use savate.Auth.{is_ascii}

-- What a socket gives to calls, one after another.
pub data Gives {Sock : Type 0} (recv : Sock → Received × Sock)
    : Sock → List Bytes → Sock → Type 0 where
  nothing : {s : Sock} → Gives recv s [] s
  more :
      {s t u : Sock} {b : Bytes} {bs : List Bytes}
      → recv s ≡ (bytes b, t)
      → Gives recv t bs u
      → Gives recv s (b ∷ bs) u

-- The class of a relay's source: its content type is not found.
source_class : find_source (by_bytes fake_headers) ≡ some buffered_raw
unfolding find_source sources_mapping by_bytes fake_headers lookup is_ascii
source_class = refl

module _ {Sock : Type 0} (recv : Sock → Received × Sock) where
  -- What a call of the socket does to a relay that has gathered `d`.
  pub data Answers : Bytes → Sock → Ended Sock → Type 0 where
    nothing_left : {d : Bytes} {k t : Sock} → recv k ≡ (again, t) → Answers d k (waits d t)
    fails : {d : Bytes} {k t : Sock} {e : ℕ} → recv k ≡ (failed e, t) → Answers d k raised
    enough :
        {d b : Bytes} {k t : Sock}
        → recv k ≡ (bytes b, t)
        → min_start_buffer ≤ length (d ++ b)
        → Answers d k (new_source buffered_raw (d ++ b) t)

  receive-Answers :
      (fuel : ℕ) (d : Bytes) {k : Sock} {o : Ended Sock}
      → Answers d k o
      → receive recv (suc fuel) d k ≡ o
  unfolding receive round start
  receive-Answers fuel d (nothing_left e) = rw (receive, e, round) refl
  receive-Answers fuel d (fails e) = rw (receive, e, round) refl
  receive-Answers fuel d (enough {b = b} e p) =
      let full : leb min_start_buffer (length (d ++ b)) ≡ true = ground (arith, p) in
      rw (receive, e, round, full, source_class) refl

  receive-Gives :
      (fuel : ℕ) (d : Bytes) {k k' : Sock} {bs : List Bytes} {o : Ended Sock}
      → Gives recv k bs k'
      → length (d ++ join bs) < min_start_buffer
      → length bs < fuel
      → Answers (d ++ join bs) k' o
      → receive recv fuel d k ≡ o
  unfolding receive round
  receive-Gives zero d g l f a = absurd (omega arith)
  receive-Gives (suc fuel) d {k} {o = o} nothing l f a =
      receive-Answers fuel d (subst (λ x. Answers x k o) (append-nil d) a)
  receive-Gives (suc fuel) d {k' = k'} {o = o} (more {b = b} {bs = bs} e g) l f a =
      let same : d ++ (b ++ join bs) ≡ (d ++ b) ++ join bs = sym (append_assoc d b (join bs)) in
      let l' : length ((d ++ b) ++ join bs) < min_start_buffer =
        subst (λ x. length x < min_start_buffer) same l in
      let low : length (d ++ b) < min_start_buffer =
        omega (arith, length-append (d ++ b) (join bs), l') in
      let on : leb min_start_buffer (length (d ++ b)) ≡ false = ground (arith, low) in
      rw (receive, e, round, on)
        (receive-Gives fuel (d ++ b) g l' (omega arith) (subst (λ x. Answers x k' o) same a))

  -- Where a ready socket gives datagrams that, with the data of earlier events, stay below 64 KiB, and
  -- then nothing more, an error, or a datagram that reaches 64 KiB: `handle_event` ends in a number of
  -- rounds one above that of the datagrams, and the relay waits with all the data, raises the error, or
  -- starts a source with exactly the data and the last datagram, in order. The source is never one for
  -- MPEG-TS, but the generic one.
  pub handle_event-Answers :
      (fuel eventmask : ℕ) (d : Bytes) (k k' : Sock) (bs : List Bytes) (o : Ended Sock)
      → has_pollin eventmask ≡ true
      → Gives recv k bs k'
      → length (d ++ join bs) < min_start_buffer
      → length bs < fuel
      → Answers (d ++ join bs) k' o
      → handle_event recv fuel eventmask d k ≡ o
  unfolding handle_event
  handle_event-Answers fuel eventmask d k k' bs o m g l f a = rw m (receive-Gives fuel d g l f a)
