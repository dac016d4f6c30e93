-- ===== src/Shoutcast/Examples.antt =====
-- Metadata on concrete streams.
use savate.Prelude.{
  Bytes, List, [], arith, drop, false, inl, inr, length, refl, some, take, true, ◌++◌, ◌∷◌, ◌≡◌,
  ◌≤◌,
}
use savate.Shoutcast.{Icy, counted, cut, metadata_parse, owed, parse, take_metadata}
use savate.Shoutcast.Demux.{absorb_all, metadata_parse-eq-absorb_all}
use savate.Shoutcast.Client.{IcyClient, icy_meta_interval, init, inserted, weave}
use savate.Shoutcast.Client.RoundTrip.{InStep, deliver, metadata_parse-deliver, published}
use savate.Shoutcast.Source.{ShoutcastSource, handle_packet, handled, read_audio}
use savate.Shoutcast.Source.Delivery.{handle_packet-IsInStep}
use savate.AudioParser.{AudioParser}
use savate.AudioParser
use savate.AudioParser.Adts
use savate.AudioParser.Framing.{Framed, IsInStep, no_header, whole}
use savate.Sources
use savate.Sources.Raw.{low_bitrate_temp_buffer_size}
use savate.Sources.Raw.Delivery.{Handled}

-- Two bytes of audio, no metadata, two bytes of audio, and the start of some metadata.
abbrev every_two : Icy
every_two = record { icy_metaint = 2; bytes_count = counted 0; buffer_metadata = []; metadata = [] }

abbrev stream : Bytes
stream = 7 ∷ 8 ∷ 0 ∷ 9 ∷ 10 ∷ 1 ∷ 65 ∷ []

two_stretches :
    metadata_parse stream every_two
    ≡ some (
      7 ∷ 8 ∷ 9 ∷ 10 ∷ [],
      record {
        icy_metaint = 2;
        bytes_count = owed 15;
        buffer_metadata = 1 ∷ 65 ∷ [];
        metadata = 0 ∷ [];
      },
    )
unfolding metadata_parse parse take_metadata cut
two_stretches = refl

metadata_parse-eq-absorb_all_example :
    metadata_parse stream every_two ≡ some (absorb_all stream every_two)
metadata_parse-eq-absorb_all_example =
    metadata_parse-eq-absorb_all stream every_two (omega arith) (omega arith)

-- A listener of short stretches: a title is told once.
abbrev title : Bytes
title = 1 ∷ 83 ∷ 0 ∷ 0 ∷ 0 ∷ 0 ∷ 0 ∷ 0 ∷ 0 ∷ 0 ∷ 0 ∷ 0 ∷ 0 ∷ 0 ∷ 0 ∷ 0 ∷ 0 ∷ []

weave_short :
    weave 2 9 title (1 ∷ 2 ∷ 3 ∷ 4 ∷ 5 ∷ []) init
    ≡ some (1 ∷ 2 ∷ (title ++ (3 ∷ 4 ∷ 0 ∷ 5 ∷ [])), record { bytes_count = 1; metadata = title })
unfolding weave inserted
weave_short = refl

abbrev fresh : Icy
fresh = record {
  icy_metaint = icy_meta_interval;
  bytes_count = counted 0;
  buffer_metadata = [];
  metadata = [];
}

abbrev packets : List (Bytes × Bytes)
packets = ([], 1 ∷ 2 ∷ []) ∷ (title, 3 ∷ []) ∷ []

metadata_parse-deliver_example :
    (out : Bytes) × (c' : IcyClient) × (s' : Icy) × (deliver packets init ≡ some (out, c'))
    × (metadata_parse out fresh ≡ some (published packets, s'))
    × InStep c' s'
metadata_parse-deliver_example =
    metadata_parse-deliver packets init fresh (refl, refl, refl, omega arith)
      (inl refl, (inr (omega arith), tt))

-- An ADTS stream without metadata.
abbrev frame_1 : Bytes
frame_1 = 0xff ∷ 0xf1 ∷ 0 ∷ 0 ∷ 1 ∷ 0 ∷ 0 ∷ 10 ∷ []

abbrev aac : ShoutcastSource
aac = record {
  raw = record {
    source = record { on_demand = Sources.disabled; has_relay = false; effects = [] };
    output_buffer_data = [];
    burst_size = 100;
    burst_packets = record { maxbytes = 100; current_size = 0; items = [] };
  };
  icy = record { icy_metaint = 0; bytes_count = counted 0; buffer_metadata = []; metadata = [] };
  icy_headers = [];
  frame_parser = record (AudioParser.init 8192) { parsing_state = AudioParser.parse_header };
  working_buffer = [];
}

one_frame : Framed Adts.handle_headers (frame_1 ++ 0xff ∷ []) 0 8
unfolding Adts.handle_headers Adts.frame_length
one_frame = whole 8 refl (omega arith) (omega arith) (no_header refl refl)

handle_packet-IsInStep_example :
    (s' : ShoutcastSource) × (out : List Bytes) × (handle_packet Adts.handle_headers 20 true
        (frame_1 ++ 0xff ∷ [])
        aac
      ≡ handled s')
    × Handled aac.raw (take 8 (frame_1 ++ 0xff ∷ [])) out s'.raw
    × (length s'.raw.output_buffer_data ≤ low_bitrate_temp_buffer_size)
    × (s'.frame_parser.buffer ≡ drop 8 (frame_1 ++ 0xff ∷ []))
    × IsInStep s'.frame_parser
unfolding read_audio
handle_packet-IsInStep_example =
    handle_packet-IsInStep Adts.handle_headers 20 true (frame_1 ++ 0xff ∷ []) aac 0xff
      (drop 1 (frame_1 ++ 0xff ∷ [])) aac.icy 8 (record { counted = refl }) (refl, refl) refl
      one_frame (omega arith)
