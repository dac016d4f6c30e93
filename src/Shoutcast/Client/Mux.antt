-- ===== src/Shoutcast/Client/Mux.antt =====
-- What a listener is sent, byte by byte.
use savate.Prelude.{
  Bool-cases, Bytes, [], ap, append-nil, append_assoc, arith, drop, if◌then◌else◌, inl, inr, length,
  length-drop, length-take, ltb, refl, some, suc, sym, take, take-append-drop, zero, ℕ, ◌++◌, ◌+◌,
  ◌-◌, ◌<◌, ◌==◌, ◌∙◌, ◌∷◌, ◌≡◌, ◌≤◌, ◌⊎◌,
}
use savate.Shoutcast.Client.{IcyClient, inserted, weave}

-- One byte of audio, with the metadata before it where a stretch is complete.
unfoldable pub emit : ℕ → Bytes → ℕ → IcyClient → Bytes × IcyClient
emit interval source_metadata b c =
    if c.bytes_count == interval
    then (
      inserted source_metadata c ++ b ∷ [],
      record { bytes_count = 1; metadata = source_metadata },
    )
    else (b ∷ [], record c { bytes_count = c.bytes_count + 1 })

unfoldable pub emit_all : ℕ → Bytes → Bytes → IcyClient → Bytes × IcyClient
emit_all interval m [] c = ([], c)
emit_all interval m (b ∷ packet) c =
    let (out, c') = emit interval m b c in
    let (rest, t) = emit_all interval m packet c' in (out ++ rest, t)

abbrev pub client : ℕ → Bytes → IcyClient
client n m = record { bytes_count = n; metadata = m }

-- A stretch that needs no metadata.
emit_all-room :
    (interval : ℕ) (m a b old : Bytes) (n : ℕ)
    → n + length a ≤ interval
    → emit_all interval m (a ++ b) (client n old) ≡ (
      a ++ (emit_all interval m b (client (n + length a) old)).0,
      (emit_all interval m b (client (n + length a) old)).1,
    )
unfolding emit_all emit
emit_all-room interval m [] b old n h = ground arith
emit_all-room interval m (x ∷ a) b old n h =
    ground (arith, emit_all-room interval m a b old (n + 1))

-- Where a stretch is complete and there is more, the metadata comes next.
emit_all-full :
    (interval : ℕ) (m packet old : Bytes)
    → 0 < length packet
    → 0 < interval
    → emit_all interval m packet (client interval old) ≡ (
      inserted m (client interval old) ++ (emit_all interval m packet (client 0 m)).0,
      (emit_all interval m packet (client 0 m)).1,
    )
unfolding emit_all emit
emit_all-full interval m [] old h k = elim h [ ]
emit_all-full interval m (b ∷ packet) old h k = ground (
  arith,
  append_assoc (inserted m (client interval old)) (b ∷ [])
      (emit_all interval m packet (client 1 m)).0,
)

-- A packet with more than the room left.
emit_all-split :
    (interval : ℕ) (m packet old : Bytes) (n : ℕ)
    → n ≤ interval
    → 0 < interval
    → interval < n + length packet
    → emit_all interval m packet (client n old) ≡ (
      take (interval - n) packet
          ++ (inserted m (client interval old)
              ++ (emit_all interval m (drop (interval - n) packet) (client 0 m)).0),
      (emit_all interval m (drop (interval - n) packet) (client 0 m)).1,
    )
emit_all-split interval m packet old n h k l =
    let t = take (interval - n) packet in
    let d = drop (interval - n) packet in
    let e : n + length t ≡ interval = omega (arith, length-take (interval - n) packet) in
    ap (λ p. emit_all interval m p (client n old)) (sym (take-append-drop (interval - n) packet))
    ∙ emit_all-room interval m t d old n (omega arith)
    ∙ rw e
        (rw (emit_all-full interval m d old (omega (arith, length-drop (interval - n) packet)) k))

emit_all_rest :
    (interval : ℕ) (m packet old : Bytes) (n : ℕ)
    → n + length packet ≤ interval
    → emit_all interval m packet (client n old) ≡ (packet, client (n + length packet) old)
emit_all_rest interval m packet old n h =
    ap (λ p. emit_all interval m p (client n old)) (sym (append-nil packet))
    ∙ emit_all-room interval m packet [] old n h
    ∙ unfold emit_all in rw (append-nil packet)

pub weave-eq-emit_all :
    (fuel interval : ℕ) (m packet old : Bytes) (n : ℕ)
    → n ≤ interval
    → 0 < interval
    → ((n < interval) × (length packet + 1 ≤ fuel)) ⊎ (length packet + 2 ≤ fuel)
    → weave interval fuel m packet (client n old) ≡ some (emit_all interval m packet (client n old))
unfolding weave inserted
weave-eq-emit_all zero interval m packet old n h k f = absurd (ground (arith, f))
weave-eq-emit_all (suc fuel) interval m [] old n h k f = unfold emit_all in refl
weave-eq-emit_all (suc fuel) interval m (b ∷ packet) old n h k f =
    elim (Bool-cases (ltb interval (n + length (b ∷ packet)))) [
      | inl e ↦ rw (
        e,
        emit_all-split interval m (b ∷ packet) old n h k (ground (arith, e)),
        weave-eq-emit_all fuel interval m (drop (interval - n) (b ∷ packet)) m 0 (omega arith) k
            (inl (k, ground (arith, f, e, length-drop (interval - n) (b ∷ packet)))),
      )
      | inr e ↦ rw (e, emit_all_rest interval m (b ∷ packet) old n (ground (arith, e)))
    ]
