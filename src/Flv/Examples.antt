-- ===== src/Flv/Examples.antt =====
-- Objects of an FLV stream, parsed.
use savate.Prelude.{Bytes, [], arith, refl, true, ◌++◌, ◌∷◌, ◌≡◌}
use savate.BinaryParser.{object_size, parse, parsed, parser_error, refused}
use savate.BinaryParser.BigEndian.{parse-append}
use savate.Flv.{avc, avc_sequence_header, flv_header, flv_tag, flv_video_data, keyframe, video}
use savate.Flv.Tag.{flv_tag-tag_header, tag_header}

-- The header of a stream with audio and video.
abbrev header_bytes : Bytes
header_bytes = b'F' ∷ b'L' ∷ b'V' ∷ 1 ∷ 5 ∷ 0 ∷ 0 ∷ 0 ∷ 9 ∷ 0 ∷ 0 ∷ 0 ∷ 0 ∷ []

parse-header_bytes :
    parse flv_header header_bytes
    ≡ parsed (record {
      raw_data = header_bytes;
      signature = b'F' ∷ b'L' ∷ b'V' ∷ [];
      version = 1;
      flags = 5;
      audio = true;
      video = true;
      data_offset = 9;
      previous_tag_size = 0;
    })
unfolding parse flv_header
parse-header_bytes = refl

-- A reserved tag type is refused.
parse_reserved :
    parse flv_tag (7 ∷ 0 ∷ 0 ∷ 0 ∷ 0 ∷ 0 ∷ 0 ∷ 0 ∷ 0 ∷ 0 ∷ 0 ∷ []) ≡ refused parser_error
unfolding parse flv_tag
parse_reserved = refl

-- A keyframe of AVC video, with a sequence header.
parse_video :
    parse flv_video_data (0x17 ∷ 0 ∷ [])
    ≡ parsed (record {
      raw_data = 0x17 ∷ 0 ∷ [];
      frame_type_id = keyframe;
      codec_id = avc;
      avc_packet_type = avc_sequence_header;
    })
unfolding parse flv_video_data
parse_video = refl

flv_tag-tag_header_example :
    parse flv_tag (tag_header video 300 70000 ++ 1 ∷ 2 ∷ [])
    ≡ parsed (record {
      raw_data = tag_header video 300 70000;
      tag_type_id = 9;
      tag_type = video;
      data_size = 300;
      timestamp = 70000;
      stream_id = 0 ∷ 0 ∷ 0 ∷ [];
      body = [];
    })
flv_tag-tag_header_example = flv_tag-tag_header video 300 70000 (1 ∷ 2 ∷ []) (omega arith)

parse-append_example : parse flv_header (header_bytes ++ 1 ∷ []) ≡ parse flv_header header_bytes
unfolding object_size flv_header
parse-append_example = parse-append flv_header header_bytes (1 ∷ []) (omega arith)
