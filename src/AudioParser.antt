-- ===== src/AudioParser.antt =====
-- savate/audio_parser.pyx, adts.pyx and mp3.pyx: cutting a stream of audio into frames.
pub mod Adts
pub mod Mp3
pub mod Framing
mod Examples
use savate.Prelude.{
  Bytes, List, Option, [], drop, if◌then◌else◌, inl, inr, join, leb, length, ltb, none, some, suc,
  take, zero, ℕ, ◌&&◌, ◌*◌, ◌++◌, ◌+◌, ◌-◌, ◌==◌, ◌∷◌, ◌⊎◌,
}

-- What `handle_headers` says of the bytes at a position: too few of them, FrameParsingError, or a frame
-- of some length.
pub data Header : Type 0 where
  more : Header
  broken : Header
  frame : ℕ → Header

pub data ParsingState : Type 0 where
  parse_header parse_error : ParsingState

abbrev pub min_sync_frames : ℕ
min_sync_frames = 8

pub record AudioParser : Type 0 where
  pub parsing_state : ParsingState
  pub frame_length : ℕ
  pub max_frame_length : ℕ
  pub buffer : Bytes
  pub frames : List Bytes
  pub lower_bound : ℕ
  pub upper_bound : ℕ
  pub error_back_ref : ℕ
  pub error_frames : ℕ

-- `__cinit__` and `__init__`, with the class's max_frame_length.
abbrev pub init : ℕ → AudioParser
init max_frame_length = record {
  parsing_state = parse_error;
  frame_length = 0;
  max_frame_length = max_frame_length;
  buffer = [];
  frames = [];
  lower_bound = 0;
  upper_bound = 0;
  error_back_ref = 1;
  error_frames = 0;
}

-- buffer[lower : upper - n], where a negative bound counts from the end.
pub slice : Bytes → ℕ → ℕ → ℕ → Bytes
slice buffer lower upper n =
    drop lower (take (if leb n upper then upper - n else length buffer - (n - upper)) buffer)

-- buffer.find(b"\xff", start)
pub find_sync : Bytes → ℕ → ℕ → Option ℕ
find_sync [] start i = none
find_sync (b ∷ bs) start i =
    let later = find_sync bs start (i + 1) in if leb start i && b == 0xff then some i else later

-- How `handle_error` ends: with None, with True, with an exception, or not within the fuel.
pub data Recovery : Type 0 where
  waiting : AudioParser → Recovery
  synced : AudioParser → Recovery
  broken_stream : Recovery
  no_end : Recovery

-- How `feed` ends: with the frames, with FrameParsingError, or not within the fuel.
pub data Fed : Type 0 where
  fed : Bytes → AudioParser → Fed
  failed : Fed
  out_of_fuel : Fed

-- After a first error: `ignore previous frame` and go on from here.
pub give_up : AudioParser → AudioParser
give_up p = record p {
  error_back_ref = p.upper_bound + 1;
  parsing_state = parse_error;
  error_frames = 0;
  frames = p.frames ++ slice p.buffer p.lower_bound p.upper_bound p.frame_length ∷ [];
  lower_bound = p.upper_bound;
}

-- What is returned: the frames and the last stretch, which leaves the buffer.
pub finish : AudioParser → Fed
finish p =
    fed (join (p.frames ++ drop p.lower_bound (take p.upper_bound p.buffer) ∷ []))
      (record p { frames = []; buffer = drop p.upper_bound p.buffer })

module _ (handle_headers : Bytes → ℕ → Header) where
  -- The body of `handle_error`'s loop up to the tests at its end, `none` being a broken stream.
  pub try_frame : AudioParser → Option AudioParser
  try_frame p = elim (handle_headers p.buffer p.upper_bound) [
    | more ↦ some p
    | frame n ↦ some (record p {
      frame_length = n;
      upper_bound = p.upper_bound + n;
      error_frames = p.error_frames + 1;
    })
    | broken ↦ elim (find_sync p.buffer p.error_back_ref 0) [
      | none ↦ none
      | some i ↦
          some (record p {
            error_frames = 0;
            lower_bound = i;
            upper_bound = i;
            error_back_ref = i + 1;
          })
    ]
  ]

  pub handle_error : ℕ → AudioParser → Recovery
  handle_error zero p = no_end
  handle_error (suc fuel) p =
      if ltb (length p.buffer) (p.max_frame_length + p.upper_bound)
      then waiting p
      else (elim (try_frame p) [
        | none ↦ broken_stream
        | some q ↦
            let rest = handle_error fuel q in
            if q.error_frames == min_sync_frames
            then synced (record q { parsing_state = parse_header })
            else if ltb (min_sync_frames * q.max_frame_length + q.error_back_ref)
                (q.upper_bound + 1)
            then broken_stream
            else rest
      ])

  -- One round of `feed`'s loop in the state PARSE_HEADER: `inl` goes on, `inr` breaks.
  pub next_frame : AudioParser → AudioParser ⊎ AudioParser
  next_frame p = elim (handle_headers p.buffer p.upper_bound) [
    | more ↦ inr p
    | broken ↦ inl (give_up p)
    | frame n ↦
        if ltb (length p.buffer) (p.upper_bound + n)
        then inr (record p { frame_length = n })
        else inl (record p { frame_length = n; upper_bound = p.upper_bound + n })
  ]

  pub loop : ℕ → AudioParser → Fed
  loop zero p = out_of_fuel
  loop (suc fuel) p = elim p.parsing_state [
    | parse_header ↦ elim (next_frame p) [ inl q ↦ loop fuel q | inr q ↦ finish q ]
    | parse_error ↦ elim (handle_error fuel p) [
      | waiting q ↦ finish q
      | synced q ↦ loop fuel q
      | broken_stream ↦ failed
      | no_end ↦ out_of_fuel
    ]
  ]

  pub feed : ℕ → Bytes → AudioParser → Fed
  feed fuel more_data p =
      loop fuel (record p { buffer = p.buffer ++ more_data; lower_bound = 0; upper_bound = 0 })
