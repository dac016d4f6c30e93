-- ===== src/AudioParser/Examples.antt =====
-- Frames on concrete bytes.
use savate.Prelude.{Bytes, [], arith, drop, refl, take, ◌<◌, ◌∷◌, ◌≡◌, ◌≤◌}
use savate.AudioParser.{AudioParser, fed, feed, frame, init, parse_header}
use savate.AudioParser.Adts
use savate.AudioParser.Mp3
use savate.AudioParser.Framing.{Framed, IsInStep, feed-Framed, no_header, whole}

-- Two ADTS frames of eight bytes, and the start of a third.
abbrev adts : Bytes
adts =
    0xff ∷ 0xf1 ∷ 0 ∷ 0 ∷ 1 ∷ 0 ∷ 0 ∷ 10 ∷ 0xff ∷ 0xf1 ∷ 0 ∷ 0 ∷ 1 ∷ 0 ∷ 0 ∷ 20 ∷ 0xff ∷ 0xf1 ∷ []

abbrev synced_parser : AudioParser
synced_parser = record (init 8192) { parsing_state = parse_header }

abbrev mp3 : Bytes
mp3 = 0xff ∷ 0xfb ∷ 0x90 ∷ 0 ∷ []

-- 128 kbit/s at 44.1 kHz.
mp3_length : Mp3.handle_headers mp3 0 ≡ frame 417
unfolding Mp3.handle_headers Mp3.version Mp3.layer_3 Mp3.bitrate Mp3.frequency Mp3.entry
    Mp3.frame_length
mp3_length = refl

handle_headers_bounds_example : (0 < 417) × (417 ≤ Mp3.max_frame_length)
handle_headers_bounds_example = Mp3.handle_headers_bounds mp3 0 417 (omega arith) mp3_length

two_frames : Framed Adts.handle_headers adts 0 16
unfolding Adts.handle_headers Adts.frame_length
two_frames =
    whole 8 refl (omega arith) (omega arith)
      (whole 8 refl (omega arith) (omega arith) (no_header refl refl))

feed-Framed_example :
    (q : AudioParser) × (feed Adts.handle_headers 20 adts synced_parser ≡ fed (take 16 adts) q)
    × (q.buffer ≡ drop 16 adts)
    × IsInStep q
feed-Framed_example =
    feed-Framed Adts.handle_headers 20 adts synced_parser 16 (refl, refl) two_frames (omega arith)

abbrev empty_frame : Bytes
empty_frame = 0xff ∷ 0xf1 ∷ 0 ∷ 0 ∷ 0 ∷ 0 ∷ 0 ∷ []

empty_header : Adts.handle_headers empty_frame 0 ≡ frame 0
unfolding Adts.handle_headers Adts.frame_length
empty_header = refl
