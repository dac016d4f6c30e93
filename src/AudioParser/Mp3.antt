-- ===== src/AudioParser/Mp3.antt =====
-- savate/mp3.pyx and mp3_static.c: the header of an MP3 frame. Only layer III gets past the second
-- byte's test, so its tables are the ones that are read.
use savate.Prelude.{
  Bool, Bytes, List, Option, [], arith, false, get_or, if◌then◌else◌, leb, length, ltb, none, not,
  refl, some, suc, true, zero, ℕ, ◌%◌, ◌&&◌, ◌*◌, ◌+◌, ◌/◌, ◌<◌, ◌==◌, ◌||◌, ◌∷◌, ◌≡◌, ◌≤◌,
}
use savate.AudioParser.{Header, broken, frame, more}

pub data Version : Type 0 where
  mpeg_1 mpeg_2 mpeg_2_5 : Version

-- MP3Parser.max_frame_length
abbrev pub max_frame_length : ℕ
max_frame_length = 4608

-- MPEG_1_LAYER_3[i] and MPEG_2_LAYER_2_3[i] for 0 < i < 15; the entries 0 and 15 are -1.
abbrev pub mpeg_1_layer_3 : List ℕ
mpeg_1_layer_3 =
    32000 ∷ 40000 ∷ 48000 ∷ 56000 ∷ 64000 ∷ 80000 ∷ 96000 ∷ 112000 ∷ 128000 ∷ 160000 ∷ 192000
    ∷ 224000 ∷ 256000 ∷ 320000 ∷ []

abbrev pub mpeg_2_layer_2_3 : List ℕ
mpeg_2_layer_2_3 =
    8000 ∷ 16000 ∷ 24000 ∷ 32000 ∷ 40000 ∷ 48000 ∷ 56000 ∷ 64000 ∷ 80000 ∷ 96000 ∷ 112000 ∷ 128000
    ∷ 144000 ∷ 160000 ∷ []

-- The entry of a table, -1 being `none`.
unfoldable pub entry : List ℕ → ℕ → Option ℕ
entry [] i = none
entry (x ∷ xs) zero = some x
entry (x ∷ xs) (suc i) = entry xs i

unfoldable pub bitrate : Version → ℕ → Option ℕ
bitrate v zero = none
bitrate mpeg_1 (suc i) = entry mpeg_1_layer_3 i
bitrate mpeg_2 (suc i) = entry mpeg_2_layer_2_3 i
bitrate mpeg_2_5 (suc i) = entry mpeg_2_layer_2_3 i

-- FREQUENCIES[version][i]
unfoldable pub frequency : Version → ℕ → Option ℕ
frequency mpeg_1 i = entry (44100 ∷ 48000 ∷ 32000 ∷ []) i
frequency mpeg_2 i = entry (22050 ∷ 24000 ∷ 16000 ∷ []) i
frequency mpeg_2_5 i = entry (11025 ∷ 12000 ∷ 8000 ∷ []) i

-- Two bits of the second byte; 1 is reserved.
unfoldable pub version : ℕ → Option Version
version n =
    if n == 0
    then some mpeg_2_5
    else if n == 2
    then some mpeg_2
    else if n == 3
    then some mpeg_1
    else none

-- 144 * c_bitrate // c_frequency + c_padding
unfoldable pub frame_length : ℕ → ℕ → ℕ → ℕ
frame_length c_bitrate c_frequency c_padding = 144 * c_bitrate / c_frequency + c_padding

-- The fields of the third byte.
unfoldable pub layer_3 : Version → ℕ → Header
layer_3 v b2 = elim (bitrate v (b2 / 16)) [
  | none ↦ broken
  | some c_bitrate ↦ elim (frequency v (b2 / 4 % 4)) [
    | none ↦ broken
    | some c_frequency ↦ frame (frame_length c_bitrate c_frequency (b2 / 2 % 2))
  ]
]

unfoldable pub handle_headers : Bytes → ℕ → Header
handle_headers buffer upper_bound =
    if ltb (length buffer) (upper_bound + 4)
    then more
    else (let at = λ (i : ℕ). get_or buffer (upper_bound + i) 0 in
        if not (at 0 == 0xff) || not (at 1 / 32 == 7)
        then broken
        else (elim (version (at 1 / 8 % 4)) [
          | none ↦ broken
          | some v ↦ if at 1 / 2 % 4 == 1 then layer_3 v (at 2) else broken
        ]))

-- Whether a header is no frame, or one of a length that is positive and within max_frame_length.
abbrev sound : Header → Bool
sound (frame n) = ltb 0 n && leb n max_frame_length
sound _ = true

-- A test of every number under `k`, the largest first.
holds_under : (ℕ → Bool) → ℕ → Bool
holds_under test zero = true
holds_under test (suc k) = let rest = holds_under test k in if test k then rest else false

holds_under-eq-true :
    (test : ℕ → Bool) (k : ℕ) {b : ℕ} → b < k → holds_under test k ≡ true → test b ≡ true
unfolding holds_under
holds_under-eq-true test zero l t = elim l [ ]
holds_under-eq-true test (suc k) {b} l t = ground (arith, t, holds_under-eq-true test k {b = b})

sound_1 : holds_under (λ b. sound (layer_3 mpeg_1 b)) 256 ≡ true
unfolding holds_under layer_3 bitrate frequency entry frame_length
sound_1 = refl

sound_2 : holds_under (λ b. sound (layer_3 mpeg_2 b)) 256 ≡ true
unfolding holds_under layer_3 bitrate frequency entry frame_length
sound_2 = refl

sound_2_5 : holds_under (λ b. sound (layer_3 mpeg_2_5 b)) 256 ≡ true
unfolding holds_under layer_3 bitrate frequency entry frame_length
sound_2_5 = refl

layer_3-sound : (v : Version) (b : ℕ) → b < 256 → sound (layer_3 v b) ≡ true
layer_3-sound mpeg_1 b h = holds_under-eq-true (λ b. sound (layer_3 mpeg_1 b)) 256 h sound_1
layer_3-sound mpeg_2 b h = holds_under-eq-true (λ b. sound (layer_3 mpeg_2 b)) 256 h sound_2
layer_3-sound mpeg_2_5 b h = holds_under-eq-true (λ b. sound (layer_3 mpeg_2_5 b)) 256 h sound_2_5

-- Every frame found in a buffer of bytes has a length between 1 and max_frame_length.
pub handle_headers_bounds :
    (buffer : Bytes) (upper_bound n : ℕ)
    → get_or buffer (upper_bound + 2) 0 < 256
    → handle_headers buffer upper_bound ≡ frame n
    → (0 < n) × (n ≤ max_frame_length)
unfolding handle_headers
handle_headers_bounds buffer u n h e = go (version (get_or buffer (u + 1) 0 / 8 % 4)) refl
  where
    go :
        (o : Option Version)
        → version (get_or buffer (u + 1) 0 / 8 % 4) ≡ o
        → (0 < n) × (n ≤ max_frame_length)
    go none w = absurd (ground (arith, w, e))
    go (some v) w = ground (arith, w, e, layer_3-sound v (get_or buffer (u + 2) 0))
