-- ===== src/AudioParser/Framing.antt =====
-- savate/audio_parser.pyx: feeding a frame parser.
use savate.Prelude.{
  Bytes, [], append-nil, arith, drop, length, refl, suc, take, zero, ℕ, ◌++◌, ◌+◌, ◌<◌, ◌≡◌, ◌≤◌,
}
use savate.AudioParser.{
  AudioParser, Fed, Header, failed, fed, feed, finish, frame, loop, more, next_frame, out_of_fuel,
  parse_header,
}

-- From `u` on the buffer holds whole frames up to `v`, and then a header or a frame that is cut short.
pub data Framed (handle_headers : Bytes → ℕ → Header) (buffer : Bytes) : ℕ → ℕ → Type 0 where
  no_header : {u v : ℕ} → u ≡ v → handle_headers buffer u ≡ more → Framed handle_headers buffer u v
  cut_short :
      {u v : ℕ} (n : ℕ)
      → u ≡ v
      → handle_headers buffer u ≡ frame n
      → length buffer < u + n
      → Framed handle_headers buffer u v
  whole :
      {u v : ℕ} (n : ℕ)
      → handle_headers buffer u ≡ frame n
      → 0 < n
      → u + n ≤ length buffer
      → Framed handle_headers buffer (u + n) v
      → Framed handle_headers buffer u v

-- A parser that is in step with the stream.
abbrev pub IsInStep : AudioParser → Type 0
IsInStep p = (p.parsing_state ≡ parse_header) × (p.frames ≡ [])

module _ (handle_headers : Bytes → ℕ → Header) where
  abbrev parser : Bytes → ℕ → ℕ → ℕ → ℕ → ℕ → AudioParser
  parser buffer u length_before max_frame_length back_ref error_frames = record {
    parsing_state = parse_header;
    frame_length = length_before;
    max_frame_length = max_frame_length;
    buffer = buffer;
    frames = [];
    lower_bound = 0;
    upper_bound = u;
    error_back_ref = back_ref;
    error_frames = error_frames;
  }

  abbrev IsCutAt : Bytes → ℕ → Fed → Type 0
  IsCutAt buffer v (fed out q) = (out ≡ take v buffer) × (q.buffer ≡ drop v buffer) × IsInStep q
  IsCutAt buffer v failed = ⊥
  IsCutAt buffer v out_of_fuel = ⊥

  finish-IsCutAt :
      (buffer : Bytes) (u l m r e : ℕ) → IsCutAt buffer u (finish (parser buffer u l m r e))
  unfolding finish
  finish-IsCutAt buffer u l m r e = (append-nil (take u buffer), refl, (refl, refl))

  -- The three rounds in step.
  loop-more :
      (fuel : ℕ) (buffer : Bytes) (u l m r e : ℕ)
      → handle_headers buffer u ≡ more
      → loop handle_headers (suc fuel) (parser buffer u l m r e) ≡ finish (parser buffer u l m r e)
  unfolding loop next_frame
  loop-more fuel buffer u l m r e p = ground (arith, p)

  loop-short :
      (fuel : ℕ) (buffer : Bytes) (u l m r e n : ℕ)
      → handle_headers buffer u ≡ frame n
      → length buffer < u + n
      → loop handle_headers (suc fuel) (parser buffer u l m r e) ≡ finish (parser buffer u n m r e)
  unfolding loop next_frame
  loop-short fuel buffer u l m r e n p h = ground (arith, p)

  loop-whole :
      (fuel : ℕ) (buffer : Bytes) (u l m r e n : ℕ)
      → handle_headers buffer u ≡ frame n
      → u + n ≤ length buffer
      → loop handle_headers (suc fuel) (parser buffer u l m r e)
        ≡ loop handle_headers fuel (parser buffer (u + n) n m r e)
  unfolding loop next_frame
  loop-whole fuel buffer u l m r e n p h = ground (arith, p)

  loop-IsCutAt :
      (fuel : ℕ) (buffer : Bytes) (u v l m r e : ℕ)
      → Framed handle_headers buffer u v
      → length buffer < fuel + u
      → u ≤ length buffer
      → IsCutAt buffer v (loop handle_headers fuel (parser buffer u l m r e))
  loop-IsCutAt zero buffer u v l m r e f h k = absurd (omega arith)
  loop-IsCutAt (suc fuel) buffer u v l m r e (no_header p q) h k =
      rw (loop-more fuel buffer u l m r e q, p) (finish-IsCutAt buffer v l m r e)
  loop-IsCutAt (suc fuel) buffer u v l m r e (cut_short n p q c) h k =
      rw (loop-short fuel buffer u l m r e n q c, p) (finish-IsCutAt buffer v n m r e)
  loop-IsCutAt (suc fuel) buffer u v l m r e (whole n q n_pos c f) h k =
      rw (loop-whole fuel buffer u l m r e n q c)
        (loop-IsCutAt fuel buffer (u + n) v n m r e f (omega arith) c)

  -- Data that, after what the buffer holds, is a row of frames, is fed in a number of rounds not above
  -- the length of both: the whole frames come out, all of them, the rest stays in the buffer, and the
  -- parser stays in step.
  pub feed-Framed :
      (fuel : ℕ) (more_data : Bytes) (p : AudioParser) (v : ℕ)
      → IsInStep p
      → Framed handle_headers (p.buffer ++ more_data) 0 v
      → length (p.buffer ++ more_data) < fuel
      → (q : AudioParser) × (feed handle_headers fuel more_data p
          ≡ fed (take v (p.buffer ++ more_data)) q)
        × (q.buffer ≡ drop v (p.buffer ++ more_data))
        × IsInStep q
  unfolding feed
  feed-Framed fuel d p v (s, t) f h = go (loop handle_headers fuel ready) (rw same cut) refl
    where
      buffer : Bytes
      buffer = p.buffer ++ d

      ready : AudioParser
      ready = record p { buffer = buffer; lower_bound = 0; upper_bound = 0 }

      same :
          ready ≡ parser buffer 0 p.frame_length p.max_frame_length p.error_back_ref p.error_frames
      same = ground (arith, s, t)

      cut : IsCutAt buffer v (
          loop handle_headers fuel
            (parser buffer 0 p.frame_length p.max_frame_length p.error_back_ref p.error_frames))
      cut =
          loop-IsCutAt fuel buffer 0 v p.frame_length p.max_frame_length p.error_back_ref
            p.error_frames f (omega arith) (omega arith)

      go :
          (o : Fed)
          → IsCutAt buffer v o
          → loop handle_headers fuel ready ≡ o
          → (q : AudioParser) × (loop handle_headers fuel ready ≡ fed (take v buffer) q)
            × (q.buffer ≡ drop v buffer)
            × IsInStep q
      go (fed out q) (a, b, c) e = (q, rw (← a) e, b, c)
      go failed a e = elim a [ ]
      go out_of_fuel a e = elim a [ ]

  -- A header with a frame of no bytes, where the parser stands at the start of the buffer: it goes round
  -- for ever, whatever follows.
  loop-stuck :
      (fuel : ℕ) (p : AudioParser)
      → p.parsing_state ≡ parse_header
      → handle_headers p.buffer p.upper_bound ≡ frame 0
      → p.upper_bound ≤ length p.buffer
      → loop handle_headers fuel p ≡ out_of_fuel
  unfolding loop next_frame
  loop-stuck zero p s e h = refl
  loop-stuck (suc fuel) p s e h = ground (
    arith,
    s,
    e,
    loop-stuck fuel (record p { frame_length = 0; upper_bound = p.upper_bound + 0 }),
  )

  -- A parser that looks for a header and finds one of a frame of length 0 at the start of its buffer with the
  -- data fed to it does not end within any fuel: `feed` goes round for ever.
  pub feed-empty_frame :
      (fuel : ℕ) (more_data : Bytes) (p : AudioParser)
      → p.parsing_state ≡ parse_header
      → handle_headers (p.buffer ++ more_data) 0 ≡ frame 0
      → feed handle_headers fuel more_data p ≡ out_of_fuel
  unfolding feed
  feed-empty_frame fuel d p s e =
      loop-stuck fuel (record p { buffer = p.buffer ++ d; lower_bound = 0; upper_bound = 0 }) s e
        (omega arith)
