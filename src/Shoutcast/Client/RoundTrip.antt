-- ===== src/Shoutcast/Client/RoundTrip.antt =====
-- savate/clients.py and savate/shoutcast_source.py: a listener with metadata that is the source of another
-- server.
use savate.Prelude.{
  Bool, Bytes, List, Option, [], ap, arith, false, if◌then◌else◌, inl, inr, length, none, refl,
  same_bytes, same_bytes_iff, some, true, ℕ, ◌*◌, ◌++◌, ◌+◌, ◌<◌, ◌==◌, ◌∙◌, ◌∷◌, ◌≡◌, ◌≤◌, ◌⊎◌,
}
use savate.Shoutcast.{Icy, counted, metadata_parse, take_metadata}
use savate.Shoutcast.Demux.{
  absorb_all, absorb_all-append, absorb_all-counted, absorb_all-owed, absorb_all-size, icy,
  metadata_parse-eq-absorb_all,
}
use savate.Shoutcast.Client.{IcyClient, add_packet_with_metadata, icy_meta_interval, inserted}
use savate.Shoutcast.Client.Mux.{client, emit, emit_all, weave-eq-emit_all}

-- Metadata as it travels: its length in units of 16 bytes, and that many bytes.
abbrev pub IsMetadata : Bytes → Type 0
IsMetadata [] = ⊥
IsMetadata (x ∷ rest) = length rest ≡ x * 16

-- What the source has is metadata, or has not changed.
abbrev pub IsFit : Bytes → Bytes → Type 0
IsFit old m = (old ≡ m) ⊎ IsMetadata m

inserted-IsMetadata : (m : Bytes) (c : IcyClient) → IsFit c.metadata m → IsMetadata (inserted m c)
unfolding inserted
inserted-IsMetadata m c h = go (same_bytes c.metadata m) refl h
  where
    go :
        (b : Bool)
        → same_bytes c.metadata m ≡ b
        → IsFit c.metadata m
        → IsMetadata (if b then 0 ∷ [] else m)
    go true e h = omega arith
    go false e (inl q) = absurd (ground (arith, e, q, same_bytes_iff c.metadata m))
    go false e (inr q) = q

absorb_all-metadata :
    (m : Bytes) (i : ℕ) (old : Bytes)
    → IsMetadata m
    → absorb_all m (icy i (counted i) [] old) ≡ ([], icy i (counted 0) [] m)
absorb_all-metadata [] i old h = elim h [ ]
absorb_all-metadata (x ∷ r) i old h =
    absorb_all-size x r i [] old
    ∙ absorb_all-owed (x ∷ r) i (x * 16 + 1) [] old (omega (arith, h)) (omega arith)
    ∙ unfold take_metadata in ground (arith, h)

-- One byte.
absorb_all-emit :
    (i : ℕ) (m : Bytes) (b n : ℕ) (old known : Bytes)
    → 0 < i
    → n ≤ i
    → IsFit old m
    → (known' : Bytes) × (absorb_all (emit i m b (client n old)).0 (icy i (counted n) [] known)
        ≡ (b ∷ [], icy i (counted (emit i m b (client n old)).1.bytes_count) [] known'))
unfolding emit
absorb_all-emit i m b n old known k h f = go (n == i) refl
  where
    one :
        (j : ℕ) (md : Bytes)
        → j < i
        → absorb_all (b ∷ []) (icy i (counted j) [] md) ≡ (b ∷ [], icy i (counted (j + 1)) [] md)
    one j md l = absorb_all-counted (b ∷ []) i j [] md (omega arith)

    go :
        (t : Bool)
        → (n == i) ≡ t
        → (known' : Bytes) × (absorb_all (emit i m b (client n old)).0 (icy i (counted n) [] known)
            ≡ (b ∷ [], icy i (counted (emit i m b (client n old)).1.bytes_count) [] known'))
    go true e = (
      inserted m (client n old),
      ground (
        arith,
        e,
        absorb_all-append (inserted m (client n old)) (b ∷ []) (icy i (counted i) [] known),
        absorb_all-metadata (inserted m (client n old)) i known
            (inserted-IsMetadata m (client n old) f),
        one 0 (inserted m (client n old)) k,
      ),
    )
    go false e = (known, ground (arith, e, one n known (ground (arith, e))))

emit-IsFit :
    (i : ℕ) (m : Bytes) (b n : ℕ) (old : Bytes)
    → 0 < i
    → n ≤ i
    → IsFit old m
    → ((emit i m b (client n old)).1.bytes_count ≤ i)
      × IsFit (emit i m b (client n old)).1.metadata m
unfolding emit
emit-IsFit i m b n old k h f = go (n == i) refl
  where
    go :
        (t : Bool)
        → (n == i) ≡ t
        → ((emit i m b (client n old)).1.bytes_count ≤ i)
          × IsFit (emit i m b (client n old)).1.metadata m
    go true e = rw e (k, inl refl)
    go false e = rw e (ground (arith, e), f)

absorb_all-emit_all :
    (packet : Bytes) (i : ℕ) (m : Bytes) (n : ℕ) (old known : Bytes)
    → 0 < i
    → n ≤ i
    → IsFit old m
    → (known' : Bytes) × (absorb_all
          (emit_all i m packet (client n old)).0
          (icy i (counted n) [] known)
        ≡ (packet, icy i (counted (emit_all i m packet (client n old)).1.bytes_count) [] known'))
unfolding emit_all
absorb_all-emit_all [] i m n old known k h f = (known, unfold absorb_all in refl)
absorb_all-emit_all (b ∷ packet) i m n old known k h f =
    let c' = (emit i m b (client n old)).1 in
    let (at, fit) = emit-IsFit i m b n old k h f in
    let (known1, p) = absorb_all-emit i m b n old known k h f in
    let (known2, q) = absorb_all-emit_all packet i m c'.bytes_count c'.metadata known1 k at fit in
    (
      known2,
      absorb_all-append (emit i m b (client n old)).0 (emit_all i m packet c').0
            (icy i (counted n) [] known)
          ∙ rw (p, q),
    )

emit_all-IsFit :
    (packet : Bytes) (i : ℕ) (m : Bytes) (n : ℕ) (old : Bytes)
    → 0 < i
    → n ≤ i
    → IsFit old m
    → ((emit_all i m packet (client n old)).1.bytes_count ≤ i)
      × IsFit (emit_all i m packet (client n old)).1.metadata m
unfolding emit_all
emit_all-IsFit [] i m n old k h f = (h, f)
emit_all-IsFit (b ∷ packet) i m n old k h f =
    let c' = (emit i m b (client n old)).1 in
    let (at, fit) = emit-IsFit i m b n old k h f in
    emit_all-IsFit packet i m c'.bytes_count c'.metadata k at fit

IsFit-trans : (a b c : Bytes) → IsFit a b → IsFit b c → IsFit a c
IsFit-trans a b c h (inr m) = inr m
IsFit-trans a b c (inl p) (inl q) = inl (p ∙ q)
IsFit-trans a b c (inr m) (inl q) = inr (rw (← q) m)

-- Packets published in turn, each with the source's metadata at the time.
pub deliver : List (Bytes × Bytes) → IcyClient → Option (Bytes × IcyClient)
deliver [] c = some ([], c)
deliver ((m, packet) ∷ rest) c = elim (add_packet_with_metadata m packet c) [
  | none ↦ none
  | some (out, c') ↦ elim (deliver rest c') [ none ↦ none | some (more, t) ↦ some (out ++ more, t) ]
]

abbrev pub published : List (Bytes × Bytes) → Bytes
published [] = []
published ((m, packet) ∷ rest) = packet ++ published rest

-- The source's metadata is well-formed whenever it changes.
abbrev pub Announced : Bytes → List (Bytes × Bytes) → Type 0
Announced old [] = Unit
Announced old ((m, packet) ∷ rest) = IsFit old m × Announced m rest

-- The source at the other end, in step with the client.
abbrev pub InStep : IcyClient → Icy → Type 0
InStep c s =
    (s.icy_metaint ≡ icy_meta_interval)
    × (s.bytes_count ≡ counted c.bytes_count)
    × (s.buffer_metadata ≡ [])
    × (c.bytes_count ≤ icy_meta_interval)

interval_pos : 0 < icy_meta_interval
interval_pos = omega arith

deliver-cons :
    (m packet : Bytes) (rest : List (Bytes × Bytes)) (c c' t : IcyClient) {out more : Bytes}
    → add_packet_with_metadata m packet c ≡ some (out, c')
    → deliver rest c' ≡ some (more, t)
    → deliver ((m, packet) ∷ rest) c ≡ some (out ++ more, t)
unfolding deliver
deliver-cons m packet rest c c' t p q = ground (arith, p, q)

deliver-absorb_all :
    (items : List (Bytes × Bytes)) (n : ℕ) (own old known : Bytes)
    → n ≤ icy_meta_interval
    → IsFit own old
    → Announced old items
    → (out : Bytes) × (c' : IcyClient) × (known' : Bytes) × (deliver items (client n own)
        ≡ some (out, c'))
      × (c'.bytes_count ≤ icy_meta_interval)
      × (absorb_all out (icy icy_meta_interval (counted n) [] known)
          ≡ (published items, icy icy_meta_interval (counted c'.bytes_count) [] known'))
unfolding deliver add_packet_with_metadata
deliver-absorb_all [] n own old known h f a =
    ([], client n own, known, refl, h, unfold absorb_all in refl)
deliver-absorb_all ((m, packet) ∷ rest) n own old known h f (g, a) =
    let fit = IsFit-trans own old m f g in
    let c' = (emit_all icy_meta_interval m packet (client n own)).1 in
    let (at, fit') = emit_all-IsFit packet icy_meta_interval m n own interval_pos h fit in
    let w =
      weave-eq-emit_all (length packet + 2) icy_meta_interval m packet own n h interval_pos
        (inr (omega arith)) in
    let (known1, p) =
      absorb_all-emit_all packet icy_meta_interval m n own known interval_pos h fit in
    let (out, t, known2, d, b, q) =
      deliver-absorb_all rest c'.bytes_count c'.metadata m known1 at fit' a in
    (
      (emit_all icy_meta_interval m packet (client n own)).0 ++ out,
      t,
      known2,
      deliver-cons m packet rest (client n own) c' t w d,
      b,
      absorb_all-append (emit_all icy_meta_interval m packet (client n own)).0 out
            (icy icy_meta_interval (counted n) [] known)
          ∙ rw (p, q),
    )

-- Whatever packets are published, with whatever metadata that is well-formed where it changes, the
-- listener's stream is produced, and a source that reads it from the same position at the same
-- interval gets the published audio back, and is in step again.
pub metadata_parse-deliver :
    (items : List (Bytes × Bytes)) (c : IcyClient) (s : Icy)
    → InStep c s
    → Announced c.metadata items
    → (out : Bytes) × (c' : IcyClient) × (s' : Icy) × (deliver items c ≡ some (out, c'))
      × (metadata_parse out s ≡ some (published items, s'))
      × InStep c' s'
metadata_parse-deliver items c s (i, n, e, h) a =
    let (out, c', known, d, b, q) =
      deliver-absorb_all items c.bytes_count c.metadata c.metadata s.metadata h (inl refl) a in
    let s0 = icy icy_meta_interval (counted c.bytes_count) [] s.metadata in
    let same : s ≡ s0 = λ j. icy (i j) (n j) (e j) s.metadata in
    (
      out,
      c',
      icy icy_meta_interval (counted c'.bytes_count) [] known,
      d,
      ap (metadata_parse out) same
          ∙ metadata_parse-eq-absorb_all out s0 h interval_pos
          ∙ ap (λ t. some t) q,
      (refl, refl, refl, b),
    )
