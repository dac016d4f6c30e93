-- ===== src/Shoutcast/Demux.antt =====
-- What parsing the metadata comes to, byte by byte.
use savate.Prelude.{
  Bool-cases, Bytes, [], ap, append_assoc, arith, drop, if◌then◌else◌, inl, inr, length,
  length-drop, length-take, refl, some, suc, sym, take, take-append-drop, zero, ℕ, ◌*◌, ◌++◌, ◌+◌,
  ◌-◌, ◌<◌, ◌==◌, ◌∙◌, ◌∷◌, ◌≡◌, ◌≤◌,
}
use savate.Shoutcast.{Count, Icy, counted, cut, metadata_parse, owed, parse, take_metadata}

-- The metadata with one more byte, `n` of them still missing after it.
unfoldable pub gather : ℕ → ℕ → Icy → Icy
gather n b s =
    let buffer = s.buffer_metadata ++ b ∷ [] in
    if n == 0
    then record s { bytes_count = counted 0; buffer_metadata = []; metadata = buffer }
    else record s { bytes_count = owed n; buffer_metadata = buffer }

-- One byte: after `icy_metaint` bytes of audio comes the length of the metadata in units of 16 bytes,
-- which is kept with it; then that many bytes; then audio again.
unfoldable pub absorb : ℕ → Icy → Bytes × Icy
absorb b s = elim s.bytes_count [
  | owed n ↦ ([], gather (n - 1) b s)
  | counted n ↦
      if n == s.icy_metaint
      then ([], gather (b * 16) b s)
      else (b ∷ [], record s { bytes_count = counted (n + 1) })
]

unfoldable pub absorb_all : Bytes → Icy → Bytes × Icy
absorb_all [] s = ([], s)
absorb_all (b ∷ packet) s =
    let (audio, s') = absorb b s in let (rest, t) = absorb_all packet s' in (audio ++ rest, t)

-- Never more audio than `icy_metaint`, never no metadata missing.
abbrev pub IsPlacedAt : ℕ → Count → Type 0
IsPlacedAt m (counted n) = n ≤ m
IsPlacedAt m (owed n) = 0 < n

abbrev pub IsPlaced : Icy → Type 0
IsPlaced s = IsPlacedAt s.icy_metaint s.bytes_count

abbrev pub icy : ℕ → Count → Bytes → Bytes → Icy
icy m c buffer metadata = record {
  icy_metaint = m;
  bytes_count = c;
  buffer_metadata = buffer;
  metadata = metadata;
}

pub absorb_all-append :
    (a b : Bytes) (s : Icy)
    → absorb_all (a ++ b) s ≡ (
      (absorb_all a s).0 ++ (absorb_all b (absorb_all a s).1).0,
      (absorb_all b (absorb_all a s).1).1,
    )
unfolding absorb_all
absorb_all-append [] b s = refl
absorb_all-append (x ∷ a) b s = rw (absorb_all-append a b (absorb x s).1, append_assoc)

-- Missing metadata is taken in at once.
pub absorb_all-owed :
    (a : Bytes) (m n : ℕ) (buffer metadata : Bytes)
    → length a ≤ n
    → 0 < length a
    → absorb_all a (icy m (owed n) buffer metadata)
      ≡ ([], take_metadata n a (icy m (owed n) buffer metadata))
unfolding absorb_all absorb take_metadata gather
absorb_all-owed [] m n buffer metadata h k = elim k [ ]
absorb_all-owed (b ∷ []) m n buffer metadata h k = ground arith
absorb_all-owed (b ∷ c ∷ a) m n buffer metadata h k = ground (
  arith,
  absorb_all-owed (c ∷ a) m (n - 1) (buffer ++ b ∷ []) metadata,
  append_assoc buffer (b ∷ []) (c ∷ a),
)

-- So is audio, up to the next metadata.
pub absorb_all-counted :
    (a : Bytes) (m n : ℕ) (buffer metadata : Bytes)
    → n + length a ≤ m
    → absorb_all a (icy m (counted n) buffer metadata)
      ≡ (a, icy m (counted (n + length a)) buffer metadata)
unfolding absorb_all absorb
absorb_all-counted [] m n buffer metadata h = ground arith
absorb_all-counted (b ∷ a) m n buffer metadata h =
    ground (arith, absorb_all-counted a m (n + 1) buffer metadata)

-- The rounds of the loop, seen byte by byte.
absorb_all-take_metadata :
    (p : Bytes) (m n : ℕ) (buffer metadata : Bytes)
    → 0 < n
    → 0 < length p
    → absorb_all p (icy m (owed n) buffer metadata)
      ≡ absorb_all (drop n p) (take_metadata n (take n p) (icy m (owed n) buffer metadata))
absorb_all-take_metadata p m n buffer metadata h k =
    ap (λ t. absorb_all t (icy m (owed n) buffer metadata)) (sym (take-append-drop n p))
    ∙ absorb_all-append (take n p) (drop n p) (icy m (owed n) buffer metadata)
    ∙ rw (
        absorb_all-owed (take n p) m n buffer metadata (omega (arith, length-take n p))
          (omega (arith, length-take n p)))

pub absorb_all-size :
    (b : ℕ) (p : Bytes) (m : ℕ) (buffer metadata : Bytes)
    → absorb_all (b ∷ p) (icy m (counted m) buffer metadata)
      ≡ absorb_all (b ∷ p) (icy m (owed (b * 16 + 1)) buffer metadata)
unfolding absorb_all absorb gather
absorb_all-size b p m buffer metadata = ground arith

absorb_all-cut :
    (p : Bytes) (m n : ℕ) (buffer metadata : Bytes)
    → n ≤ m
    → absorb_all p (icy m (counted n) buffer metadata) ≡ (
      take (m - n) p
          ++ (absorb_all
              (drop (m - n) p)
              (icy m (counted (n + length (take (m - n) p))) buffer metadata)).0,
      (absorb_all
          (drop (m - n) p)
          (icy m (counted (n + length (take (m - n) p))) buffer metadata)).1,
    )
absorb_all-cut p m n buffer metadata h =
    ap (λ t. absorb_all t (icy m (counted n) buffer metadata)) (sym (take-append-drop (m - n) p))
    ∙ absorb_all-append (take (m - n) p) (drop (m - n) p) (icy m (counted n) buffer metadata)
    ∙ rw (
        absorb_all-counted (take (m - n) p) m n buffer metadata
          (omega (arith, length-take (m - n) p)))

-- The loop, on a budget of two rounds a byte, one less where metadata is missing.
abbrev cost : Count → ℕ
cost (counted n) = 1
cost (owed n) = 0

cost-le : (c : Count) → cost c ≤ 1
cost-le (counted n) = omega arith
cost-le (owed n) = omega arith

parse-eq-absorb_all :
    (fuel : ℕ) (packet : Bytes) (m : ℕ) (c : Count) (buffer metadata : Bytes)
    → IsPlacedAt m c
    → 0 < m
    → 2 * length packet + cost c ≤ fuel
    → 0 < fuel
    → parse fuel packet (icy m c buffer metadata)
      ≡ some (absorb_all packet (icy m c buffer metadata))
unfolding parse take_metadata cut
parse-eq-absorb_all zero packet m c buffer metadata p q h k = elim k [ ]
parse-eq-absorb_all (suc fuel) [] m c buffer metadata p q h k = unfold absorb_all in refl
parse-eq-absorb_all (suc fuel) (b ∷ packet) m (owed n) buffer metadata p q h k =
    rw (absorb_all-take_metadata (b ∷ packet) m n buffer metadata p (omega arith))
      (elim (Bool-cases (length (take n (b ∷ packet)) == n)) [
        | inl e ↦ rw e (
            parse-eq-absorb_all fuel (drop n (b ∷ packet)) m (counted 0) []
              (buffer ++ take n (b ∷ packet))
              (ground (arith, e, length-take n (b ∷ packet), length-drop n (b ∷ packet))) q
              (ground (arith, e, length-take n (b ∷ packet), length-drop n (b ∷ packet)))
              (ground (arith, e, length-take n (b ∷ packet), length-drop n (b ∷ packet))))
        | inr e ↦ rw e (
            parse-eq-absorb_all fuel (drop n (b ∷ packet)) m
              (owed (n - length (take n (b ∷ packet)))) (buffer ++ take n (b ∷ packet)) metadata
              (ground (arith, e, length-take n (b ∷ packet), length-drop n (b ∷ packet))) q
              (ground (arith, e, length-take n (b ∷ packet), length-drop n (b ∷ packet)))
              (ground (arith, e, length-take n (b ∷ packet), length-drop n (b ∷ packet))))
      ])
parse-eq-absorb_all (suc fuel) (b ∷ packet) m (counted n) buffer metadata p q h k =
    elim (Bool-cases (n == m)) [
      | inl e ↦ ground (
        arith,
        e,
        absorb_all-size b packet m buffer metadata,
        parse-eq-absorb_all fuel (b ∷ packet) m (owed (b * 16 + 1)) buffer metadata,
      )
      | inr e ↦
          (let next = drop (m - n) (b ∷ packet) in
            let first = take (m - n) (b ∷ packet) in
            ground (
              arith,
              e,
              absorb_all-cut (b ∷ packet) m n buffer metadata,
              length-take (m - n) (b ∷ packet),
              length-drop (m - n) (b ∷ packet),
              parse-eq-absorb_all fuel next m (counted (n + length first)) buffer metadata,
            ))
    ]

-- On any working buffer and in any state with audio between the metadata, parsing ends, and gives the
-- audio and the state of the byte by byte reading.
pub metadata_parse-eq-absorb_all :
    (working_buffer : Bytes) (s : Icy)
    → IsPlaced s
    → 0 < s.icy_metaint
    → metadata_parse working_buffer s ≡ some (absorb_all working_buffer s)
unfolding metadata_parse
metadata_parse-eq-absorb_all w s p q =
    parse-eq-absorb_all (2 * length w + 1) w s.icy_metaint s.bytes_count s.buffer_metadata
      s.metadata p q (omega (arith, cost-le s.bytes_count)) (omega arith)
