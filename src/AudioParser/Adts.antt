-- ===== src/AudioParser/Adts.antt =====
-- savate/adts.pyx: the header of an ADTS frame.
use savate.Prelude.{
  Bytes, arith, get_or, if◌then◌else◌, length, ltb, not, ℕ, ◌%◌, ◌*◌, ◌+◌, ◌/◌, ◌<◌, ◌==◌, ◌^◌,
  ◌||◌, ◌≡◌,
}
use savate.AudioParser.{Header, broken, frame, more}

-- The three fields that make up the 13 bits of the length, from the fourth byte on.
unfoldable pub frame_length : ℕ → ℕ → ℕ → ℕ
frame_length b3 b4 b5 = b5 / 32 + b4 * 8 + b3 % 4 * 2 ^ 11

unfoldable pub handle_headers : Bytes → ℕ → Header
handle_headers buffer upper_bound =
    if ltb (length buffer) (upper_bound + 7)
    then more
    else (let at = λ (i : ℕ). get_or buffer (upper_bound + i) 0 in
        if not (at 0 == 0xff) || not (at 1 / 32 == 7)
        then broken
        else frame (frame_length (at 3) (at 4) (at 5)))

-- The length of a frame is that of its header field: any number below 2 ^ 13, written high bits first
-- over three bytes of which the other bits are free, is read back.
pub frame_length-fields :
    (n high low : ℕ)
    → n < 2 ^ 13
    → low < 32
    → frame_length (high * 4 + n / 2 ^ 11) (n / 8 % 256) (n % 8 * 32 + low) ≡ n
unfolding frame_length
frame_length-fields n high low h k = omega arith
