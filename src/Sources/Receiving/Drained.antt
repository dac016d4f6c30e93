-- ===== src/Sources/Receiving/Drained.antt =====
-- savate/sources.py: the loop of handle_event over the packets of a socket.
use savate.Sources.Receiving.{Ended, closed, handle_event, receive, round, waiting}
use savate.Sources.Raw.Delivery.{Handled, handle_packet-Handled, published}
use savate.Sources.Raw.{RawSource, handle_packet}
use savate.BurstQueue.Bounds.{IsCounted}
use savate.Prelude.{
  Bool, Bytes, List, [], ap, append-nil, append_assoc, arith, false, if◌then◌else◌, join,
  join-append, length, ltb, lt→ltb, refl, some, suc, sym, true, zero, ℕ, ◌++◌, ◌<◌, ◌∙◌, ◌∷◌, ◌≡◌,
  ◌≤◌,
}
use savate.Server.Request.{Received, again, bytes}
use savate.Relay.{has_pollin}

-- Why a row of packets ends: EAGAIN, a packet that is not full, or the end of the stream.
pub data Stop : Type 0 where
  drained short end_of_stream : Stop

module _ {Sock : Type 0} (recv_packet : Sock → Received × Sock) (size : ℕ) where
  -- What a socket gives to calls that go on while packets are full.
  pub data Gives : Sock → List Bytes → Stop → Sock → Type 0 where
    nothing : {s t : Sock} → recv_packet s ≡ (again, t) → Gives s [] drained t
    ends : {s t : Sock} → recv_packet s ≡ (bytes [], t) → Gives s [] end_of_stream t
    last :
        {s t : Sock} {b : Bytes}
        → recv_packet s ≡ (bytes b, t)
        → 0 < length b
        → length b < size
        → Gives s (b ∷ []) short t
    more :
        {s t u : Sock} {b : Bytes} {bs : List Bytes} {stop : Stop}
        → recv_packet s ≡ (bytes b, t)
        → 0 < length b
        → size ≤ length b
        → Gives t bs stop u
        → Gives s (b ∷ bs) stop u

abbrev pub finish : {Source Sock : Type 0} → Stop → Source → Sock → Ended Source Sock
finish drained s k = waiting s k
finish short s k = waiting s k
finish end_of_stream s k = closed s k

Handled-refl : (s : RawSource) → IsCounted s.burst_packets → Handled s [] [] s
Handled-refl s v = record {
  sent = sym (append-nil (published s.source.effects));
  complete = sym (append-nil s.output_buffer_data);
  counted = v;
}

Handled-trans :
    (s t u : RawSource) (a b : Bytes) (out more_out : List Bytes)
    → Handled s a out t
    → Handled t b more_out u
    → Handled s (a ++ b) (out ++ more_out) u
Handled-trans s t u a b out more_out x y = record {
  sent =
      y.sent
      ∙ ap (λ l. l ++ more_out) x.sent
      ∙ append_assoc (published s.source.effects) out more_out;
  complete =
      ap (λ l. l ++ u.output_buffer_data) (join-append out more_out)
      ∙ append_assoc (join out) (join more_out) u.output_buffer_data
      ∙ ap (λ l. join out ++ l) y.complete
      ∙ sym (append_assoc (join out) t.output_buffer_data b)
      ∙ ap (λ l. l ++ b) x.complete
      ∙ append_assoc s.output_buffer_data a b;
  counted = y.counted;
}

module _ {Sock : Type 0} (recv_packet : Sock → Received × Sock) (size temp_size : ℕ)
    (clients : Bool) where
  abbrev run : ℕ → RawSource → Sock → Ended RawSource Sock
  run fuel s k = receive recv_packet (λ b s. handle_packet temp_size clients b s) size fuel s k

  -- What the loop makes of a row of packets.
  abbrev pub IsDrained : RawSource → Sock → List Bytes → Stop → Sock → ℕ → Type 0
  IsDrained s k bs stop k' fuel =
      (s' : RawSource) × (out : List Bytes) × (run fuel s k ≡ finish stop s' k')
      × Handled s (join bs) out s'
      × (length s'.output_buffer_data < temp_size)

  receive-step :
      (fuel : ℕ) (s s1 : RawSource) (k t : Sock) (b : Bytes)
      → recv_packet k ≡ (bytes b, t)
      → 0 < length b
      → handle_packet temp_size clients b s ≡ some s1
      → run (suc fuel) s k ≡ (if ltb (length b) size then waiting s1 t else run fuel s1 t)
  unfolding receive round
  receive-step fuel s s1 k t [] e p h = absurd (omega arith)
  receive-step fuel s s1 k t (c ∷ b) e p h = rw (receive, e, round, h) refl

  receive-last :
      (fuel : ℕ) (s s1 : RawSource) (k t : Sock) (b : Bytes)
      → recv_packet k ≡ (bytes b, t)
      → 0 < length b
      → length b < size
      → handle_packet temp_size clients b s ≡ some s1
      → run (suc fuel) s k ≡ waiting s1 t
  receive-last fuel s s1 k t b e p q h =
      receive-step fuel s s1 k t b e p h ∙ rw (lt→ltb (length b) size q) refl

  receive-more :
      (fuel : ℕ) (s s1 : RawSource) (k t : Sock) (b : Bytes)
      → recv_packet k ≡ (bytes b, t)
      → 0 < length b
      → size ≤ length b
      → handle_packet temp_size clients b s ≡ some s1
      → run (suc fuel) s k ≡ run fuel s1 t
  receive-more fuel s s1 k t b e p q h =
      let full : ltb (length b) size ≡ false = ground arith in
      receive-step fuel s s1 k t b e p h ∙ rw full refl

  receive-IsDrained :
      (fuel : ℕ) (s : RawSource) {k k' : Sock} {bs : List Bytes} {stop : Stop}
      → 0 < temp_size
      → IsCounted s.burst_packets
      → length s.output_buffer_data < temp_size
      → Gives recv_packet size k bs stop k'
      → length bs < fuel
      → IsDrained s k bs stop k' fuel
  unfolding receive round
  receive-IsDrained zero s pos v l g f = absurd (omega arith)
  receive-IsDrained (suc fuel) s pos v l (nothing e) f =
      (s, [], rw (receive, e, round) refl, Handled-refl s v, l)
  receive-IsDrained (suc fuel) s pos v l (ends e) f =
      (s, [], rw (receive, e, round) refl, Handled-refl s v, l)
  receive-IsDrained (suc fuel) s {k} {k'} pos v l (last {b = b} e p q) f =
      let (s1, h, l1, (out, n, x)) = handle_packet-Handled temp_size clients b s pos v in
      (s1, out, receive-last fuel s s1 k k' b e p q h, rw (append-nil b) x, l1)
  receive-IsDrained (suc fuel) s {k} pos v l (more {t = t} {b = b} {bs = bs} e p q g) f =
      let (s1, h, l1, (out, n, x)) = handle_packet-Handled temp_size clients b s pos v in
      let (s2, out2, r, y, l2) = receive-IsDrained fuel s1 pos x.counted l1 g (omega arith) in
      (
        s2,
        out ++ out2,
        receive-more fuel s s1 k t b e p q h ∙ r,
        Handled-trans s s1 s2 b (join bs) out out2 x y,
        l2,
      )

  -- Where a ready socket gives a row of packets, full ones but for the last, `handle_event` takes all of them
  -- in a number of rounds that is one above theirs, and closes the source exactly if they end with the end
  -- of the stream. What a buffered source publishes meanwhile and what it then has gathered are, in order,
  -- what it had gathered and the packets, and it goes on gathering less than TEMP_BUFFER_SIZE bytes.
  pub handle_event-IsDrained :
      (fuel eventmask : ℕ) (s : RawSource) (k k' : Sock) (bs : List Bytes) (stop : Stop)
      → has_pollin eventmask ≡ true
      → 0 < temp_size
      → IsCounted s.burst_packets
      → length s.output_buffer_data < temp_size
      → Gives recv_packet size k bs stop k'
      → length bs < fuel
      → (s' : RawSource) × (out : List Bytes) × (handle_event recv_packet
            (λ b t. handle_packet temp_size clients b t)
            size
            fuel
            eventmask
            s
            k
          ≡ finish stop s' k')
        × Handled s (join bs) out s'
        × (length s'.output_buffer_data < temp_size)
  unfolding handle_event
  handle_event-IsDrained fuel eventmask s k k' bs stop m pos v l g f =
      rw m (receive-IsDrained fuel s pos v l g f)
