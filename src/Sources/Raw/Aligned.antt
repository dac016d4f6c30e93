-- ===== src/Sources/Raw/Aligned.antt =====
-- savate/sources.py: the sources that cut at packet boundaries.
use savate.Prelude.{
  Bool, Bool-cases, Bytes, List, [], append-nil, arith, drop, inl, inr, leb, length, length-drop,
  length-take, refl, some, sym, take, take-append-drop, ℕ, ◌%◌, ◌*◌, ◌++◌, ◌+◌, ◌-◌, ◌/◌, ◌<◌, ◌==◌,
  ◌∷◌, ◌≡◌, ◌≢◌, ◌⊎◌,
}
use savate.BurstQueue.Bounds.{IsCounted}
use savate.Sources.Raw.{RawSource, handle_fixed}
use savate.Sources.Raw.Delivery.{Handled, send_out-Handled}

-- Every packet of the list is a whole number of `size` bytes.
abbrev pub AllAligned : ℕ → List Bytes → Type 0
AllAligned size [] = Unit
AllAligned size (b ∷ bs) = (length b % size ≡ 0) × AllAligned size bs

drop_complement : (n r : ℕ) (b : Bytes) → n + r ≡ length b → take n b ++ drop (length b - r) b ≡ b
drop_complement n r b e =
    let same : length b - r ≡ n = omega arith in rw same (take-append-drop n b)

multiple-mod : (k n : ℕ) → 0 < n → k * n % n ≡ 0
multiple-mod k n h = grind arith

div_mod : (m n : ℕ) → m / n * n + m % n ≡ m
div_mod m n = grind arith

mod_lt : (m n : ℕ) → 0 < n → m % n < n
mod_lt m n h = grind arith

-- As for a buffered source; besides, what is published is a whole number of packets, and what stays
-- is less than a packet if something was published.
pub handle_fixed-Handled :
    (packet_size temp_size : ℕ) (clients : Bool) (packet : Bytes) (s : RawSource)
    → 0 < packet_size
    → IsCounted s.burst_packets
    → (s' : RawSource) × (handle_fixed packet_size temp_size clients packet s ≡ some s')
      × ((out : List Bytes) × Handled s packet out s'
          × AllAligned packet_size out
          × ((length s'.output_buffer_data < temp_size)
              ⊎ ((out ≢ []) × (length s'.output_buffer_data < packet_size))))
unfolding handle_fixed
handle_fixed-Handled packet_size temp_size clients packet s pos v =
    elim (Bool-cases (leb temp_size (length b))) [
      | inr room ↦ (
        record s { output_buffer_data = b },
        rw room,
        (
          [],
          record { sent = sym (append-nil _); complete = refl; counted = v },
          tt,
          inl (ground (arith, room)),
        ),
      )
      | inl full ↦ elim (Bool-cases (length b % packet_size == 0)) [
        | inl whole ↦
            let (s', p, l, h) = send_out-Handled clients packet b [] s (append-nil b) v in
            (
              s',
              rw full (rw whole p),
              (b ∷ [], h, (ground (arith, whole), tt), inr (λ q. cc, rw l (omega arith))),
            )
        | inr part ↦
            let (s', p, l, h) =
              send_out-Handled clients packet (take n b) (drop (length b - r) b) s
                (drop_complement n r b split_length) v in
            (
              s',
              rw full (rw part p),
              (
                take n b ∷ [],
                h,
                (rw whole_length (multiple-mod (length b / packet_size) packet_size pos), tt),
                inr (λ q. cc, rw l left_length),
              ),
            )
      ]
    ]
  where
    b : Bytes
    b = s.output_buffer_data ++ packet

    n : ℕ
    n = length b / packet_size * packet_size

    r : ℕ
    r = length b % packet_size

    split_length : n + r ≡ length b
    split_length = div_mod (length b) packet_size

    whole_length : length (take n b) ≡ n
    whole_length = omega (arith, length-take n b, split_length)

    left_length : length (drop (length b - r) b) < packet_size
    left_length =
        omega (arith, length-drop (length b - r) b, split_length, mod_lt (length b) packet_size pos)
