-- ===== src/Flv/Tag.antt =====
-- savate/flv.py: the header of a tag, written and parsed.
use savate.Prelude.{Bytes, [], arith, ℕ, ◌%◌, ◌++◌, ◌/◌, ◌<◌, ◌^◌, ◌∷◌, ◌≡◌}
use savate.BinaryParser.{parse, parsed}
use savate.BinaryParser.BigEndian.{to_big_endian}
use savate.Flv.{TagType, audio, flv_tag, meta, video}

abbrev pub tag_type_number : TagType → ℕ
tag_type_number audio = 8
tag_type_number video = 9
tag_type_number meta = 18

-- The eleven bytes of a tag header.
pub tag_header : TagType → ℕ → ℕ → Bytes
tag_header ty size timestamp =
    tag_type_number ty
    ∷ (to_big_endian 3 size
        ++ to_big_endian 3 (timestamp % 2 ^ 24)
        ++ (timestamp / 2 ^ 24) ∷ 0 ∷ 0 ∷ 0 ∷ [])

-- Of any type, with a size below 2²⁴ and any timestamp, the eleven bytes of a tag header followed by
-- anything parse to a tag of that type, size and timestamp, with those eleven bytes kept.
pub flv_tag-tag_header :
    (ty : TagType) (size timestamp : ℕ) (rest : Bytes)
    → size < 2 ^ 24
    → parse flv_tag (tag_header ty size timestamp ++ rest)
      ≡ parsed (record {
        raw_data = tag_header ty size timestamp;
        tag_type_id = tag_type_number ty;
        tag_type = ty;
        data_size = size;
        timestamp = timestamp;
        stream_id = 0 ∷ 0 ∷ 0 ∷ [];
        body = [];
      })
unfolding tag_header parse flv_tag to_big_endian
flv_tag-tag_header audio size timestamp rest h = ground arith
flv_tag-tag_header video size timestamp rest h = ground arith
flv_tag-tag_header meta size timestamp rest h = ground arith
