-- ===== src/Handlers/Runs.antt =====
-- savate/helpers.py and savate/clients.py: the life of a client, event by event.
use savate.Prelude.{
  Bool-cases, Bytes, List, [], ap, append-nil, append_assoc, arith, false, if◌then◌else◌, inl, inr,
  join, join-append, refl, sym, ℕ, ◌++◌, ◌∙◌, ◌∷◌, ◌≡◌,
}
use mathlib.Core.Path.{subst}
use savate.BufferEvent.{Socket}
use savate.Handlers.{Ended, Handler, add_packet, done, handle_event, raised, stream_client}
use savate.Handlers.Awake.{
  IsAwake, IsKept, add_packet-IsAwake, add_packet-stream, handle_event-IsKept, stream,
}

module _ (sock : Socket) where
  -- What happens to a client: a packet of its source, or an event of its socket.
  pub data Input : Type 0 where
    packet : Bytes → Input
    event : ℕ → Input

  pub step : Input → Handler sock → Ended sock
  step (packet b) h = done (add_packet sock b h)
  step (event m) h = handle_event sock stream_client m h

  -- Until it is closed or an error other than a disconnection comes out.
  pub run : List Input → Handler sock → Ended sock
  run [] h = done h
  run (i ∷ is) h = elim (step i h) [
    | raised e h' ↦ raised e h'
    | done h' ↦ let rest = run is h' in if h'.closed then done h' else rest
  ]

  abbrev pub packets : List Input → List Bytes
  packets [] = []
  packets (packet b ∷ is) = b ∷ packets is
  packets (event m ∷ is) = packets is

  -- The packets `given` have been queued before the end, those of `missed` have not.
  abbrev pub IsServed : Bytes → List Bytes → Ended sock → Type 0
  IsServed before bs (done h) =
      IsAwake sock h
      × ((given : List Bytes) × (missed : List Bytes) × (bs ≡ given ++ missed)
          × (stream sock h ≡ before ++ join given)
          × (h.closed ≡ false → missed ≡ []))
  IsServed before bs (raised e h) =
      (given : List Bytes) × (missed : List Bytes) × (bs ≡ given ++ missed)
      × (stream sock h ≡ before ++ join given)

  abbrev IsStep : Bytes → Bytes → Ended sock → Type 0
  IsStep before b (done h) = IsAwake sock h × (stream sock h ≡ before ++ b)
  IsStep before b (raised e h) = stream sock h ≡ before ++ b

  -- The bytes that an input adds.
  abbrev added : Input → List Bytes
  added (packet b) = b ∷ []
  added (event m) = []

  step-IsStep :
      (i : Input) (h : Handler sock)
      → h.closed ≡ false
      → IsAwake sock h
      → IsStep (stream sock h) (join (added i)) (step i h)
  unfolding step
  step-IsStep (packet b) h o v =
      (add_packet-IsAwake sock b h o v, rw (append-nil b) (add_packet-stream sock b h))
  step-IsStep (event m) h o v =
      IsKept-IsStep (handle_event sock stream_client m h) (handle_event-IsKept sock m h o v)
    where
      IsKept-IsStep : (q : Ended sock) → IsKept sock (stream sock h) q → IsStep (stream sock h) [] q
      IsKept-IsStep (done h') (a, e) = (a, e ∙ sym (append-nil (stream sock h)))
      IsKept-IsStep (raised n h') e = e ∙ sym (append-nil (stream sock h))

  packets-cons : (i : Input) (is : List Input) → packets (i ∷ is) ≡ added i ++ packets is
  packets-cons (packet b) is = refl
  packets-cons (event m) is = refl

  packets-added :
      (i : Input) (is : List Input) (given missed : List Bytes)
      → packets is ≡ given ++ missed
      → packets (i ∷ is) ≡ (added i ++ given) ++ missed
  packets-added (packet b) is given missed p = ap (λ l. b ∷ l) p
  packets-added (event m) is given missed p = p

  join-added :
      (before after : Bytes) (i : Input) (given : List Bytes) (t : Bytes)
      → after ≡ before ++ join (added i)
      → t ≡ after ++ join given
      → t ≡ before ++ join (added i ++ given)
  join-added before after i given t w e = e ∙ rw (w, join-append (added i) given, append_assoc)

  IsServed-cons :
      (before after : Bytes) (i : Input) (is : List Input) (q : Ended sock)
      → after ≡ before ++ join (added i)
      → IsServed after (packets is) q
      → IsServed before (packets (i ∷ is)) q
  IsServed-cons before after i is (done h) w (v, (given, missed, p, e, c)) = (
    v,
    (
      added i ++ given,
      missed,
      packets-added i is given missed p,
      join-added before after i given (stream sock h) w e,
      c,
    ),
  )
  IsServed-cons before after i is (raised n h) w (given, missed, p, e) = (
    added i ++ given,
    missed,
    packets-added i is given missed p,
    join-added before after i given (stream sock h) w e,
  )

  -- From an open client that is awake, any packets and events end in a handler that is awake: while it is
  -- open, it is watched for room if it has data to send, and for nothing, with no timeout, if it has none;
  -- once closed it is neither watched nor timed. What has been sent and what is queued are what there was
  -- and the packets given to it, in order: all of them if it is open at the end. An error that ends the run
  -- loses and repeats nothing either.
  pub run-IsServed :
      (is : List Input) (h : Handler sock)
      → h.closed ≡ false
      → IsAwake sock h
      → IsServed (stream sock h) (packets is) (run is h)
  unfolding run
  run-IsServed [] h o v = (v, ([], [], refl, sym (append-nil (stream sock h)), λ c. refl))
  run-IsServed (i ∷ is) h o v = go (step i h) refl (step-IsStep i h o v) (run-IsServed is)
    where
      go :
          (q : Ended sock)
          → step i h ≡ q
          → IsStep (stream sock h) (join (added i)) q
          → ((h1 : Handler sock)
              → h1.closed ≡ false
              → IsAwake sock h1
              → IsServed (stream sock h1) (packets is) (run is h1))
          → IsServed (stream sock h) (packets (i ∷ is)) (run (i ∷ is) h)
      go (raised n h1) e w ih = rw (e, run) (added i, packets is, packets-cons i is, w)
      go (done h1) e (a, w) ih = elim (Bool-cases h1.closed) [
        | inl c ↦
            let same : done h1 ≡ run (i ∷ is) h = ground (arith, e, c) in
            subst (λ q. IsServed (stream sock h) (packets (i ∷ is)) q) same
              (a, (added i, packets is, packets-cons i is, w, λ d. absurd (ground (arith, c, d))))
        | inr c ↦
            let same : run is h1 ≡ run (i ∷ is) h = ground (arith, e, c) in
            subst (λ q. IsServed (stream sock h) (packets (i ∷ is)) q) same
              (IsServed-cons (stream sock h) (stream sock h1) i is (run is h1) w (ih h1 c a))
      ]
