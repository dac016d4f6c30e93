-- ===== src/Shoutcast/Source.antt =====
-- savate/shoutcast_source.py: the class itself. Its headers are read, metadata is taken out of the
-- stream, the audio is cut into frames, and these are gathered into packets.
pub mod Delivery
use savate.Prelude.{
  Bool, Bytes, List, Option, [], bytes_eq, codes_of, if◌then◌else◌, length, ltb, none, some, ℕ,
  ◌++◌, ◌==◌, ◌∷◌,
}
use savate.Dict.{Dict, lookup, put}
use savate.AudioParser
use savate.AudioParser.{AudioParser, Header, failed, fed, feed, out_of_fuel}
use savate.Sources.Raw
use savate.Sources.Raw.{RawSource, deactivate, low_bitrate_temp_buffer_size, reconnected, send_out}
use savate.Shoutcast.{Icy, counted, metadata_parse}

pub record ShoutcastSource : Type 0 where
  pub raw : RawSource
  pub icy : Icy
  pub icy_headers : Dict Bytes (Option Bytes)
  pub frame_parser : AudioParser
  pub working_buffer : Bytes

-- b"Icy-%s" % head.capitalize(), for each of ICY_HEADERS
abbrev pub icy_header_names : List Bytes
icy_header_names =
    codes_of "Icy-Name"
    ∷ codes_of "Icy-Genre"
    ∷ codes_of "Icy-Url"
    ∷ codes_of "Icy-Pub"
    ∷ codes_of "Icy-Br"
    ∷ codes_of "Icy-Metaint"
    ∷ codes_of "Icy-Notice1"
    ∷ codes_of "Icy-Notice2"
    ∷ []

unfoldable pub copy_headers :
    List Bytes → Dict Bytes Bytes → Dict Bytes (Option Bytes) → Dict Bytes (Option Bytes)
copy_headers [] given d = d
copy_headers (name ∷ names) given d = copy_headers names given (put name (lookup name given) d)

-- `icy_headers.get(b"Icy-Metaint")`, where it is true
metaint_header : Dict Bytes (Option Bytes) → Option Bytes
metaint_header d = elim (lookup (codes_of "Icy-Metaint") d) [
  | none ↦ none
  | some none ↦ none
  | some (some []) ↦ none
  | some (some (c ∷ value)) ↦ some (c ∷ value)
]

-- How a packet ends: handled, or with an exception, or not within the frame parser's fuel.
pub data Outcome : Type 0 where
  handled : ShoutcastSource → Outcome
  raised : Outcome
  no_end : Outcome

-- `int_10` is Python's int() of a text, ValueError being `none`; signs are left out.
module _ (int_10 : Bytes → Option ℕ) where
  pub set_headers : Dict Bytes Bytes → ShoutcastSource → Option ShoutcastSource
  set_headers given s =
      let headers = copy_headers icy_header_names given s.icy_headers in
      elim (metaint_header headers) [
        | none ↦ some (record s { icy_headers = headers })
        | some value ↦ elim (int_10 value) [
          | none ↦ none
          | some n ↦ some (record s {
            icy_headers = headers;
            icy = record {
              icy_metaint = n;
              bytes_count = counted 0;
              buffer_metadata = [];
              metadata = [];
            };
          })
        ]
      ]

  -- `__init__`, from the source as LowBitrateSource leaves it and a new parser.
  pub init : Dict Bytes Bytes → AudioParser → RawSource → Option ShoutcastSource
  init given frame_parser raw = set_headers given (record {
    raw = record raw { output_buffer_data = [] };
    icy = record { icy_metaint = 0; bytes_count = counted 0; buffer_metadata = []; metadata = [] };
    icy_headers = [];
    frame_parser = frame_parser;
    working_buffer = raw.output_buffer_data;
  })

  pub on_demand_connected : Bytes → Dict Bytes Bytes → ShoutcastSource → Option ShoutcastSource
  on_demand_connected body given s = set_headers given (record s { raw = reconnected body s.raw })

pub on_demand_deactivate : ShoutcastSource → ShoutcastSource
on_demand_deactivate s = record s {
  raw = deactivate s.raw;
  working_buffer = [];
  frame_parser = record (s.frame_parser) { buffer = [] };
}

-- The working buffer without its metadata, if there is any in the stream.
unfoldable pub read_audio : Bytes → Icy → Option (Bytes × Icy)
read_audio working_buffer s =
    if s.icy_metaint == 0 then some (working_buffer, s) else metadata_parse working_buffer s

-- The end of `handle_packet`: what has been gathered is published once there is enough of it.
pub gather_frames : Bool → Bytes → RawSource → Option RawSource
gather_frames clients frames raw =
    let gathered = raw.output_buffer_data ++ frames in
    if ltb low_bitrate_temp_buffer_size (length gathered)
    then send_out clients gathered [] raw
    else some (record raw { output_buffer_data = gathered })

-- `handle_packet` of a class with the frame parser's `handle_headers`.
pub handle_packet : (Bytes → ℕ → Header) → ℕ → Bool → Bytes → ShoutcastSource → Outcome
handle_packet handle_headers fuel clients packet s =
    elim (read_audio (s.working_buffer ++ packet) s.icy) [
      | none ↦ no_end
      | some ([], icy) ↦ handled (record s { icy = icy; working_buffer = [] })
      | some (a ∷ audio, icy) ↦ elim (feed handle_headers fuel (a ∷ audio) s.frame_parser) [
        | failed ↦ raised
        | out_of_fuel ↦ no_end
        | fed frames parser ↦ elim (gather_frames clients frames s.raw) [
          | none ↦ raised
          | some raw ↦
              handled
                (record s { raw = raw; icy = icy; frame_parser = parser; working_buffer = [] })
        ]
      ]
    ]
