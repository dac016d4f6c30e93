-- ===== src/Flv.antt =====
-- savate/flv.py: the objects of an FLV stream. The constants 4 and 1 of the header's flags, the tag
-- types, frame types, codecs and sound formats are the source's. `tag_type`, `frame_type` and
-- `codec` hold the names that the source looks up in its tables; names of which the program
-- compares only one are represented by the identifier beside them.
pub mod Tag
mod Examples
use Prim.Native.Nat.{bit_and}
use savate.Prelude.{
  Bool, Bytes, Option, [], false, get_or, if◌then◌else◌, leb, none, same_bytes, some, take, ℕ, ◌%◌,
  ◌&&◌, ◌*◌, ◌+◌, ◌/◌, ◌==◌, ◌^◌, ◌||◌, ◌∷◌,
}
use savate.BinaryParser.{Parser, Value, byte, bytes, int, raw, str_to_long, uint32}

module _ {O : Type 0} where
  -- A constant in place of a validator: the value must equal it, and is stored.
  unfoldable pub expect_int : ℕ → (ℕ → O → O) → O → Value → Option O
  expect_int n store o (int m) = if m == n then some (store m o) else none
  expect_int n store o (bytes b) = none

  unfoldable pub expect_bytes : Bytes → (Bytes → O → O) → O → Value → Option O
  expect_bytes b store o (int m) = none
  expect_bytes b store o (bytes c) = if same_bytes c b then some (store c o) else none

-- FLVHeader. The constant fields keep their one value.
pub record FlvHeader : Type 0 where
  pub raw_data : Bytes
  pub signature : Bytes
  pub version : ℕ
  pub flags : ℕ
  pub audio : Bool
  pub video : Bool
  pub data_offset : ℕ
  pub previous_tag_size : ℕ

-- `flv_header_flags`
unfoldable pub flv_header_flags : FlvHeader → Value → Option FlvHeader
flv_header_flags h (int v) =
    some (record h { audio = bit_and v 4 == 4; video = bit_and v 1 == 1; flags = v })
flv_header_flags h (bytes b) = none

unfoldable pub flv_header : Parser FlvHeader
unfolding expect_int expect_bytes flv_header_flags
flv_header = record {
  blank = record {
    raw_data = [];
    signature = [];
    version = 0;
    flags = 0;
    audio = false;
    video = false;
    data_offset = 0;
    previous_tag_size = 0;
  };
  keep_raw = λ b h. record h { raw_data = b };
  parse_fields =
      record {
        format = raw 3;
        validate = expect_bytes (b'F' ∷ b'L' ∷ b'V' ∷ []) (λ b h. record h { signature = b });
      }
      ∷ record { format = byte; validate = expect_int 1 (λ v h. record h { version = v }) }
      ∷ record { format = byte; validate = flv_header_flags }
      ∷ record { format = uint32; validate = expect_int 9 (λ v h. record h { data_offset = v }) }
      ∷ record {
        format = uint32;
        validate = expect_int 0 (λ v h. record h { previous_tag_size = v });
      }
      ∷ [];
}

pub data TagType : Type 0 where
  audio video meta : TagType

-- FLVTag. `body` is set by the source (flv_source.py), not by the parser.
pub record FlvTag : Type 0 where
  pub raw_data : Bytes
  pub tag_type_id : ℕ
  pub tag_type : TagType
  pub data_size : ℕ
  pub timestamp : ℕ
  pub stream_id : Bytes
  pub body : Bytes

abbrev pub trailer_size : ℕ
trailer_size = 4

-- `tag_types`
unfoldable pub tag_types : ℕ → Option TagType
tag_types n =
    if n == 8
    then some audio
    else if n == 9
    then some video
    else if n == 18
    then some meta
    else none

unfoldable pub flv_tag_type : FlvTag → Value → Option FlvTag
unfolding tag_types
flv_tag_type t (int v) = elim (tag_types v) [
  | none ↦ none
  | some ty ↦ some (record t { tag_type = ty; tag_type_id = v })
]
flv_tag_type t (bytes b) = none

unfoldable pub flv_data_size : FlvTag → Value → Option FlvTag
flv_data_size t (int v) = none
flv_data_size t (bytes b) = some (record t { data_size = str_to_long b })

-- The low three bytes, then the extension above them: `field_value[3] << 24`.
unfoldable pub flv_tag_timestamp : FlvTag → Value → Option FlvTag
flv_tag_timestamp t (int v) = none
flv_tag_timestamp t (bytes b) =
    some (record t { timestamp = str_to_long (take 3 b) + get_or b 3 0 * 2 ^ 24 })

unfoldable pub flv_tag : Parser FlvTag
unfolding flv_tag_type flv_data_size flv_tag_timestamp expect_bytes
flv_tag = record {
  blank = record {
    raw_data = [];
    tag_type_id = 0;
    tag_type = meta;
    data_size = 0;
    timestamp = 0;
    stream_id = [];
    body = [];
  };
  keep_raw = λ b t. record t { raw_data = b };
  parse_fields =
      record { format = byte; validate = flv_tag_type }
      ∷ record { format = raw 3; validate = flv_data_size }
      ∷ record { format = raw 4; validate = flv_tag_timestamp }
      ∷ record {
        format = raw 3;
        validate = expect_bytes (0 ∷ 0 ∷ 0 ∷ []) (λ b t. record t { stream_id = b });
      }
      ∷ [];
}

-- FLVVideoData
pub record FlvVideoData : Type 0 where
  pub raw_data : Bytes
  pub frame_type_id : ℕ
  pub codec_id : ℕ
  pub avc_packet_type : ℕ

abbrev pub keyframe : ℕ
keyframe = 1

abbrev pub avc : ℕ
avc = 7

abbrev pub avc_sequence_header : ℕ
avc_sequence_header = 0

-- The frame types are 1 to 5, the codecs 1 to 7; `>> 4` and `& 0x0F` split the byte.
unfoldable pub video_tag_info : FlvVideoData → Value → Option FlvVideoData
video_tag_info d (int v) =
    if leb 1 (v / 16) && leb (v / 16) 5
    then (if leb 1 (v % 16) && leb (v % 16) 7
        then some (record d { frame_type_id = v / 16; codec_id = v % 16 })
        else none)
    else none
video_tag_info d (bytes b) = none

unfoldable pub avc_packet : FlvVideoData → Value → Option FlvVideoData
avc_packet d (int v) = some (record d { avc_packet_type = v })
avc_packet d (bytes b) = none

unfoldable pub flv_video_data : Parser FlvVideoData
unfolding video_tag_info avc_packet
flv_video_data = record {
  blank = record { raw_data = []; frame_type_id = 0; codec_id = 0; avc_packet_type = 0 };
  keep_raw = λ b d. record d { raw_data = b };
  parse_fields =
      record { format = byte; validate = video_tag_info }
      ∷ record { format = byte; validate = avc_packet }
      ∷ [];
}

-- FLVAudioData
pub record FlvAudioData : Type 0 where
  pub raw_data : Bytes
  pub sound_format_id : ℕ
  pub aac_packet_type : ℕ

abbrev pub aac : ℕ
aac = 10

abbrev pub aac_sequence_header : ℕ
aac_sequence_header = 0

-- The sound formats are 0 to 11, 14 and 15.
unfoldable pub audio_data_info : FlvAudioData → Value → Option FlvAudioData
audio_data_info d (int v) =
    if leb (v / 16) 11 || v / 16 == 14 || v / 16 == 15
    then some (record d { sound_format_id = v / 16 })
    else none
audio_data_info d (bytes b) = none

unfoldable pub aac_packet : FlvAudioData → Value → Option FlvAudioData
aac_packet d (int v) = some (record d { aac_packet_type = v })
aac_packet d (bytes b) = none

unfoldable pub flv_audio_data : Parser FlvAudioData
unfolding audio_data_info aac_packet
flv_audio_data = record {
  blank = record { raw_data = []; sound_format_id = 0; aac_packet_type = 0 };
  keep_raw = λ b d. record d { raw_data = b };
  parse_fields =
      record { format = byte; validate = audio_data_info }
      ∷ record { format = byte; validate = aac_packet }
      ∷ [];
}
