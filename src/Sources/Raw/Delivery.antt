-- ===== src/Sources/Raw/Delivery.antt =====
-- savate/sources.py: the raw sources that are buffered.
use savate.Prelude.{
  Bool, Bool-cases, Bytes, List, [], ap, append-nil, arith, inl, inr, join, leb, length, refl, some,
  sym, ℕ, ◌++◌, ◌<◌, ◌∷◌, ◌≡◌, ◌≤◌,
}
use savate.BurstQueue.Bounds.{IsCounted, append-Discarded}
use savate.Sources.{Effect, StreamSource, arm_deactivation, emit, publish, publish_packet}
use savate.Sources.Raw.{RawSource, handle_packet, send_out}

-- The packets that a source has published, in order.
abbrev pub published : List Effect → List Bytes
published [] = []
published (publish b ∷ es) = b ∷ published es
published (_ ∷ es) = published es

published-append : (es fs : List Effect) → published (es ++ fs) ≡ published es ++ published fs
published-append [] fs = refl
published-append (publish b ∷ es) fs = ap (λ l. b ∷ l) (published-append es fs)
published-append (_ ∷ es) fs = published-append es fs

published-publish_packet :
    (clients : Bool) (b : Bytes) (s : StreamSource)
    → published (publish_packet clients b s).effects ≡ published s.effects ++ b ∷ []
unfolding publish_packet emit
published-publish_packet clients b s =
    let es = s.effects in
    ground (
      arith,
      published-append es (publish b ∷ []),
      published-append es (arm_deactivation ∷ []),
      published-append (es ++ arm_deactivation ∷ []) (publish b ∷ []),
      append-nil (published es),
    )

-- One packet handled: `out` is what it published, if anything.
pub record Handled (s : RawSource) (packet : Bytes) (out : List Bytes) (s' : RawSource)
    : Type 0 where
  pub sent : published s'.source.effects ≡ published s.source.effects ++ out
  pub complete : join out ++ s'.output_buffer_data ≡ s.output_buffer_data ++ packet
  pub counted : IsCounted s'.burst_packets

pub send_out-Handled :
    (clients : Bool) (packet b left : Bytes) (s : RawSource)
    → b ++ left ≡ s.output_buffer_data ++ packet
    → IsCounted s.burst_packets
    → (s' : RawSource) × (send_out clients b left s ≡ some s')
      × (s'.output_buffer_data ≡ left)
      × Handled s packet (b ∷ []) s'
unfolding send_out
send_out-Handled clients packet b left s e v =
    let (q, p, d) = append-Discarded s.burst_packets b v in
    (
      record s {
        source = publish_packet clients b s.source;
        burst_packets = q;
        output_buffer_data = left;
      },
      rw (p, send_out),
      refl,
      record {
        sent = published-publish_packet clients b s.source;
        complete = rw append-nil e;
        counted = record { counted = d.counted };
      },
    )

-- A buffered source with the counter of its burst queue right handles any packet without an error.
-- It publishes at most one packet; that and what it goes on gathering are, in order, what it had
-- gathered followed by the new data; and it goes on gathering less than TEMP_BUFFER_SIZE bytes.
pub handle_packet-Handled :
    (temp_size : ℕ) (clients : Bool) (packet : Bytes) (s : RawSource)
    → 0 < temp_size
    → IsCounted s.burst_packets
    → (s' : RawSource) × (handle_packet temp_size clients packet s ≡ some s')
      × (length s'.output_buffer_data < temp_size)
      × ((out : List Bytes) × (length out ≤ 1) × Handled s packet out s')
unfolding handle_packet
handle_packet-Handled temp_size clients packet s pos v =
    elim (Bool-cases (leb temp_size (length (s.output_buffer_data ++ packet)))) [
      | inl full ↦
          let b = s.output_buffer_data ++ packet in
          let (s', p, l, h) = send_out-Handled clients packet b [] s (append-nil b) v in
          (s', rw full p, rw l pos, (b ∷ [], omega arith, h))
      | inr room ↦ (
        record s { output_buffer_data = s.output_buffer_data ++ packet },
        rw room,
        ground (arith, room),
        ([], omega arith, record { sent = sym (append-nil _); complete = refl; counted = v }),
      )
    ]
