-- ===== src/Sources/Receive.antt =====
-- savate/sources.py: `recv_packet` of the MPEG-TS source that uses recvmmsg(), and `find_source`.
use savate.Prelude.{
  Bool, Bytes, List, Option, [], arith, false, if◌then◌else◌, join, leb, length, max, min, none,
  some, true, ℕ, ◌*◌, ◌==◌, ◌∷◌, ◌≡◌, ◌≤◌,
}

abbrev pub recv_buffer_count_min : ℕ
recv_buffer_count_min = 1

abbrev pub recv_buffer_count_max : ℕ
recv_buffer_count_max = 512

-- How many buffers to offer next, after `got` of `count` offered ones were filled.
pub resize_buffers : ℕ → ℕ → ℕ
resize_buffers count got =
    if leb count got then min (count * 2) recv_buffer_count_max else max got recv_buffer_count_min

-- What recvmmsg() gave: EAGAIN, or the filled buffers.
pub data Received : Type 0 where
  again : Received
  buffers : List Bytes → Received

-- The packet (`none` on EAGAIN), whether the source showed activity, and the new buffer count.
pub recv_packet : Received → ℕ → Option Bytes × Bool × ℕ
recv_packet again count = (none, false, count)
recv_packet (buffers []) count = (some [], false, count)
recv_packet (buffers (b ∷ bs)) count =
    (some (join (b ∷ bs)), true, resize_buffers count (length (b ∷ bs)))

-- recvmmsg() fills at most the buffers that it is offered.
abbrev pub Offered : ℕ → Received → Type 0
Offered count again = Unit
Offered count (buffers bs) = length bs ≤ count

-- The number of buffers stays between its limits: it doubles when all of them were filled, and
-- otherwise becomes the number that was filled.
pub recv_packet-count :
    (r : Received) (count : ℕ)
    → Offered count r
    → recv_buffer_count_min ≤ count
    → count ≤ recv_buffer_count_max
    → (recv_buffer_count_min ≤ (recv_packet r count).2)
      × ((recv_packet r count).2 ≤ recv_buffer_count_max)
      × ((b : Bytes) (bs : List Bytes)
          → r ≡ buffers (b ∷ bs)
          → (recv_packet r count).2 ≡ (
              if length (b ∷ bs) == count
              then min (count * 2) recv_buffer_count_max
              else length (b ∷ bs)))
unfolding recv_packet resize_buffers
recv_packet-count again count o h k = (h, k, λ b bs e. cc)
recv_packet-count (buffers []) count o h k = (h, k, λ b bs e. cc)
recv_packet-count (buffers (c ∷ cs)) count o h k =
    (ground arith, ground arith, λ b bs e. ground arith)
