-- ===== src/Server/Request/Reading.antt =====
-- The reading of a request: how it ends, and what it has read by then.
use savate.Prelude.{
  Bool, Bytes, [], ap, append_assoc, arith, false, leb, length, length-append, refl, suc, true,
  zero, ℕ, ◌++◌, ◌+◌, ◌-◌, ◌<◌, ◌∙◌, ◌∷◌, ◌≡◌, ◌≤◌,
}
use savate.Server.Request.{
  HttpRequest, Outcome, Parser, Peer, Received, after_recv, again, bytes, failed, finished,
  handle_read, invalid, io_error, judge, out_of_fuel, oversized, read, received, request_max_size,
  take_in, unexpected_end, waiting,
}

-- Nothing has been added.
same : (b : Bytes) → b ≡ b ++ []
same [] = refl
same (x ∷ b) = ap (λ c. x ∷ c) (same b)

module _ (peer : Peer) (http : Parser) where
  -- A request that waits for more: the counter is right and there is room.
  abbrev pub IsWaiting : HttpRequest peer http → Type 0
  IsWaiting r = (length r.request_buffer ≡ r.request_size) × (r.request_size < request_max_size)

  -- Calls of `recv` that give bytes, one after the other, from a number of bytes read on, each with the
  -- room that is left.
  pub data Reads : peer.State → ℕ → Bytes → peer.State → Type 0 where
    no_reads : {s : peer.State} {n : ℕ} → Reads s n [] s
    reads :
        {s s₁ s' : peer.State} {n x : ℕ} {b c : Bytes}
        → peer.recv s (request_max_size - n) ≡ (bytes (x ∷ b), s₁)
        → Reads s₁ (n + length (x ∷ b)) c s'
        → Reads s n (x ∷ b ++ c) s'

  -- The last call of `recv`, after those that gave bytes.
  abbrev pub Answers : peer.State → Received → HttpRequest peer http → Type 0
  Answers s o r' = peer.recv s (request_max_size - r'.request_size) ≡ (o, r'.sock)

  -- What each way to end means for the request afterwards, and for the socket as those calls leave it.
  abbrev pub IsOutcome : Outcome → HttpRequest peer http → peer.State → Type 0
  IsOutcome waiting r' s = IsWaiting r' × Answers s again r'
  IsOutcome finished r' s =
      (http.is_finished r'.request_parser ≡ true)
      × (http.has_error r'.request_parser ≡ false)
      × (r'.sock ≡ s)
  IsOutcome invalid r' s = (http.has_error r'.request_parser ≡ true) × (r'.sock ≡ s)
  IsOutcome oversized r' s =
      (r'.request_size ≡ request_max_size)
      × (http.is_finished r'.request_parser ≡ false)
      × (http.has_error r'.request_parser ≡ false)
      × (r'.sock ≡ s)
  IsOutcome unexpected_end r' s = IsWaiting r' × Answers s (bytes []) r'
  IsOutcome (io_error e) r' s = IsWaiting r' × Answers s (failed e) r'
  IsOutcome out_of_fuel r' s = ⊥

  abbrev pub Read : HttpRequest peer http → Outcome × HttpRequest peer http → Type 0
  Read r (o, r') =
      (b : Bytes) × (s : peer.State) × Reads r.sock r.request_size b s
      × IsOutcome o r' s
      × (r'.request_buffer ≡ r.request_buffer ++ b)
      × (length r'.request_buffer ≡ r'.request_size)
      × (r'.request_size ≤ request_max_size)

  judge-Read :
      (r : HttpRequest peer http) (rest : Outcome × HttpRequest peer http)
      → length r.request_buffer ≡ r.request_size
      → r.request_size ≤ request_max_size
      → (r.request_size < request_max_size → Read r rest)
      → Read r (judge peer http r rest)
  unfolding judge
  judge-Read r rest h k f =
      go (http.has_error r.request_parser) refl (http.is_finished r.request_parser) refl
        (leb request_max_size r.request_size) refl
    where
      go :
          (e : Bool)
          → http.has_error r.request_parser ≡ e
          → (i : Bool) → http.is_finished r.request_parser ≡ i
          → (o : Bool) → leb request_max_size r.request_size ≡ o
          → Read r (judge peer http r rest)
      go true p i q o w = rw p ([], r.sock, no_reads, (p, refl), same r.request_buffer, h, k)
      go false p true q o w =
          rw (p, q) ([], r.sock, no_reads, (q, p, refl), same r.request_buffer, h, k)
      go false p false q true w =
          rw (p, q, w)
            ([], r.sock, no_reads, (ground arith, q, p, refl), same r.request_buffer, h, k)
      go false p false q false w = rw (p, q, w) (f (ground arith))

  Read-take_in :
      (r : HttpRequest peer http) (x : ℕ) (b : Bytes) (s : peer.State)
      (q : Outcome × HttpRequest peer http)
      → peer.recv r.sock (request_max_size - r.request_size) ≡ (bytes (x ∷ b), s)
      → Read (take_in peer http r (x ∷ b) s) q
      → Read r q
  unfolding take_in
  Read-take_in r x b s (o, r') e (c, s', d, i, g, n, m) =
      (x ∷ b ++ c, s', reads e d, i, g ∙ append_assoc r.request_buffer (x ∷ b) c, n, m)

  after_recv-Read :
      (r : HttpRequest peer http) (o : Received) (s : peer.State)
      (rest : Outcome × HttpRequest peer http)
      → peer.recv r.sock (request_max_size - r.request_size) ≡ (o, s)
      → IsWaiting r
      → length (received o) ≤ request_max_size - r.request_size
      → (1 ≤ length (received o)
          → (take_in peer http r (received o) s).request_size < request_max_size
          → Read (take_in peer http r (received o) s) rest)
      → Read r (after_recv peer http r o s rest)
  unfolding after_recv
  after_recv-Read r again s rest e h k f =
      ([], r.sock, no_reads, (h, e), same r.request_buffer, h.0, ground arith)
  after_recv-Read r (failed n) s rest e h k f =
      ([], r.sock, no_reads, (h, e), same r.request_buffer, h.0, ground arith)
  after_recv-Read r (bytes []) s rest e h k f =
      ([], r.sock, no_reads, (h, e), same r.request_buffer, h.0, ground arith)
  after_recv-Read r (bytes (x ∷ b)) s rest e h k f =
      Read-take_in r x b s (judge peer http (take_in peer http r (x ∷ b) s) rest) e (
        judge-Read (take_in peer http r (x ∷ b) s) rest
          (unfold take_in in ground (arith, length-append r.request_buffer (x ∷ b), h.0))
          (unfold take_in in ground (arith, h.1, k)) (f (ground arith)))

  read-Read :
      (fuel : ℕ) (r : HttpRequest peer http)
      → IsWaiting r
      → request_max_size < fuel + r.request_size
      → Read r (read peer http fuel r)
  unfolding read take_in
  read-Read zero r h k = absurd (ground arith)
  read-Read (suc fuel) r h k =
      let (o, s) = peer.recv r.sock (request_max_size - r.request_size) in
      after_recv-Read r o s (read peer http fuel (take_in peer http r (received o) s)) refl h
        (peer.recv_bound r.sock (request_max_size - r.request_size))
        (λ l m.
          read-Read fuel (take_in peer http r (received o) s)
            (ground (arith, length-append r.request_buffer (received o), h.0), m)
            (ground (arith, k, l)))

  -- Reading a request that still waits ends. By then the buffer has been extended by exactly the bytes that
  -- calls of recv gave, in order, each for the room that was left, to 4096 bytes at most and with the right
  -- counter. It waits if the next call gave EAGAIN, ends unexpectedly if that gave no bytes, and with an
  -- error if that gave the error; otherwise the last call gave bytes, and a finished request is parsed
  -- without error, an invalid one is not, and an oversized one is neither and has 4096 bytes.
  pub handle_read-Read :
      (r : HttpRequest peer http) → IsWaiting r → Read r (handle_read peer http r)
  unfolding handle_read
  handle_read-Read r h = read-Read (suc request_max_size) r h (ground arith)
