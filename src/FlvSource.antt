-- ===== src/FlvSource.antt =====
-- savate/flv_source.py: an FLV stream is cut into tags as its bytes arrive, its initial tags are
-- kept for new clients, and the rest goes out in groups that begin at a keyframe.
-- `published` lists what `publish_packet` was called with, in order.
pub mod Burst
pub mod Window
pub mod Groups
mod Steps
pub mod Chunks
pub mod Ends
mod Examples
use savate.Prelude.{
  Bool, Bytes, List, Option, [], drop, false, if◌then◌else◌, is_empty, leb, length, ltb, map, none,
  some, suc, take, true, zero, ℕ, ◌&&◌, ◌*◌, ◌++◌, ◌+◌, ◌==◌, ◌∷◌,
}
use savate.BinaryParser.{Parsed, ParserError, object_size, parse, parsed, refused}
use savate.Flv.{
  FlvHeader, FlvTag, aac, aac_sequence_header, audio, avc, avc_sequence_header, flv_audio_data,
  flv_header, flv_tag, flv_video_data, keyframe, meta, trailer_size, video,
}

-- What `handle_data` is set to. `current_tag` is an attribute in the source, written just before
-- `handle_data` becomes `handle_tag_body` and read only there.
pub data Stage : Type 0 where
  handle_header : Stage
  handle_tag : Stage
  handle_tag_body : FlvTag → Stage

pub data Error : Type 0 where
  binary_parser : ParserError → Error
  index_error : Error
  out_of_fuel : Error

pub data Result (A : Type 0) : Type 0 where
  ok : A → Result A
  err : Error → Result A

infixl 5 ◌>>=◌
abbrev pub ◌>>=◌ : {A B : Type 0} → Result A → (A → Result B) → Result B
ok a >>= f = f a
err e >>= f = err e

abbrev pub of_parsed : {A : Type 0} → Parsed A → Result A
of_parsed (parsed a) = ok a
of_parsed (refused e) = err (binary_parser e)

pub record FlvSource : Type 0 where
  pub stream_header : Option FlvHeader
  pub initial_tags : List FlvTag
  pub got_initial_meta : Bool
  pub got_initial_audio : Bool
  pub got_initial_video : Bool
  pub packets_group : List FlvTag
  pub burst_groups : List (List FlvTag)
  pub burst_groups_data : List Bytes
  pub handle_data : Stage
  pub buffer_data : Bytes
  pub published : List Bytes

abbrev pub burst_duration : ℕ
burst_duration = 5 * 1000

-- `__init__`, with the body that came with the request.
pub init : Bytes → FlvSource
init body = record {
  stream_header = none;
  initial_tags = [];
  got_initial_meta = false;
  got_initial_audio = false;
  got_initial_video = false;
  packets_group = [];
  burst_groups = [];
  burst_groups_data = [];
  handle_data = handle_header;
  buffer_data = body;
  published = [];
}

pub publish_packet : Bytes → FlvSource → FlvSource
publish_packet b s = record s { published = s.published ++ b ∷ [] }

-- `b"".join(chain.from_iterable((tag.raw_data, tag.body) for tag in group))`
abbrev pub group_data : List FlvTag → Bytes
group_data [] = []
group_data (t ∷ ts) = t.raw_data ++ (t.body ++ group_data ts)

is_sync_point : FlvTag → FlvSource → Result Bool
is_sync_point tag s =
    let video_data = parse flv_video_data (take (object_size flv_video_data) tag.body) in
    elim s.stream_header [
      | none ↦ ok true
      | some h ↦
          if h.video
          then (elim tag.tag_type [
            | video ↦ of_parsed video_data >>= λ d. ok (d.frame_type_id == keyframe)
            | _ ↦ ok false
          ])
          else ok true
    ]

-- `group[0].timestamp`
pub first_timestamp : List FlvTag → Result ℕ
first_timestamp [] = err index_error
first_timestamp (t ∷ ts) = ok t.timestamp

-- The loop of `add_to_burst_groups` on both deques. The difference of the timestamps is signed in
-- the source; here it is compared as a sum.
drop_old_groups :
    List FlvTag → List (List FlvTag) → List Bytes → Result (List (List FlvTag) × List Bytes)
drop_old_groups group (g₀ ∷ g₁ ∷ gs) ds =
    let rest = drop_old_groups group (g₁ ∷ gs) (drop 1 ds) in
    first_timestamp group >>= λ t. first_timestamp g₁ >>= λ t₁.
    if ltb (t₁ + burst_duration) t
    then (if is_empty ds then err index_error else rest)
    else ok (g₀ ∷ g₁ ∷ gs, ds)
drop_old_groups group gs ds = ok (gs, ds)

add_to_burst_groups : List FlvTag → FlvSource → Result FlvSource
add_to_burst_groups group s = drop_old_groups group s.burst_groups s.burst_groups_data >>= λ r.
    ok (record s {
      burst_groups = r.0 ++ group ∷ [];
      burst_groups_data = r.1 ++ group_data group ∷ [];
    })

-- The end of a group: publish it, keep it for new clients, start the next.
close_group : FlvSource → Result FlvSource
close_group s =
    add_to_burst_groups s.packets_group (publish_packet (group_data s.packets_group) s) >>= λ s'.
    ok (record s' { packets_group = [] })

pub add_to_packets_group : FlvTag → FlvSource → Result FlvSource
add_to_packets_group tag s = is_sync_point tag s >>= λ sync.
    (if sync then close_group s else ok s) >>= λ s'.
    ok (record s' { packets_group = s'.packets_group ++ tag ∷ [] })

-- Whether the tag is the first of its type that sets the stream up. The `elif` chain of the source
-- enters at most one branch: the branches look at different tag types.
check_for_initial_tag : FlvTag → FlvSource → Result (Bool × FlvSource)
check_for_initial_tag tag s = elim tag.tag_type [
  | meta ↦
      if s.got_initial_meta
      then ok (false, s)
      else ok
          (true, record s { got_initial_meta = true; initial_tags = s.initial_tags ++ tag ∷ [] })
  | audio ↦
      if s.got_initial_audio
      then ok (false, s)
      else (of_parsed (parse flv_audio_data (take (object_size flv_audio_data) tag.body)) >>= λ d.
          if d.sound_format_id == aac && d.aac_packet_type == aac_sequence_header
          then ok (
            true,
            record s { got_initial_audio = true; initial_tags = s.initial_tags ++ tag ∷ [] },
          )
          else ok (false, s))
  | video ↦
      if s.got_initial_video
      then ok (false, s)
      else (of_parsed (parse flv_video_data (take (object_size flv_video_data) tag.body)) >>= λ d.
          if d.codec_id == avc && d.avc_packet_type == avc_sequence_header
          then ok (
            true,
            record s { got_initial_video = true; initial_tags = s.initial_tags ++ tag ∷ [] },
          )
          else ok (false, s))
]

-- A complete tag: published at once if it sets the stream up, else added to the current group.
handle_complete_tag : FlvTag → FlvSource → Result FlvSource
handle_complete_tag tag s = check_for_initial_tag tag s >>= λ r.
    if r.0
    then ok (publish_packet tag.body (publish_packet tag.raw_data r.1))
    else add_to_packets_group tag r.1

-- `self.handle_data()`: `none` is its False, which leaves the source as it was.
step_header : FlvSource → Result (Option FlvSource)
step_header s =
    if leb (object_size flv_header) (length s.buffer_data)
    then (of_parsed (parse flv_header s.buffer_data) >>= λ h. ok (
        some (record (publish_packet h.raw_data s) {
          stream_header = some h;
          buffer_data = drop (object_size flv_header) s.buffer_data;
          handle_data = handle_tag;
        })))
    else ok none

step_tag : FlvSource → Result (Option FlvSource)
step_tag s =
    if leb (object_size flv_tag) (length s.buffer_data)
    then (of_parsed (parse flv_tag s.buffer_data) >>= λ t. ok (
        some (record s {
          buffer_data = drop (object_size flv_tag) s.buffer_data;
          handle_data = handle_tag_body t;
        })))
    else ok none

step_tag_body : FlvTag → FlvSource → Result (Option FlvSource)
step_tag_body t s =
    let body_length = t.data_size + trailer_size in
    if leb body_length (length s.buffer_data)
    then (handle_complete_tag (record t { body = take body_length s.buffer_data }) s >>= λ s'. ok (
        some
          (record s' { buffer_data = drop body_length s.buffer_data; handle_data = handle_tag })))
    else ok none

step_at : Stage → FlvSource → Result (Option FlvSource)
step_at handle_header s = step_header s
step_at handle_tag s = step_tag s
step_at (handle_tag_body t) s = step_tag_body t s

pub step : FlvSource → Result (Option FlvSource)
step s = step_at s.handle_data s

-- `while self.handle_data(): pass`. Every round that goes on takes at least four bytes, so the
-- length of the buffer and one more is fuel enough.
pub run : ℕ → FlvSource → Result FlvSource
run zero s = err out_of_fuel
run (suc fuel) s = elim (step s) [ err e ↦ err e | ok none ↦ ok s | ok (some s') ↦ run fuel s' ]

-- The loop with enough fuel.
pub drain : FlvSource → Result FlvSource
drain s = run (suc (length s.buffer_data)) s

pub append_data : Bytes → FlvSource → FlvSource
append_data packet s = record s { buffer_data = s.buffer_data ++ packet }

pub handle_packet : Bytes → FlvSource → Result FlvSource
handle_packet packet s = drain (append_data packet s)

-- What `new_client` hands a client, after StreamSource's part: header, initial tags, burst.
pub new_client : FlvSource → List Bytes
new_client s =
    (elim s.stream_header [ none ↦ [] | some h ↦ h.raw_data ∷ [] ])
    ++ (map (λ (t : FlvTag). t.raw_data ++ t.body) s.initial_tags ++ s.burst_groups_data)

-- The FLV part of `on_demand_deactivate` and of `on_demand_connected`.
pub on_demand_deactivate : FlvSource → FlvSource
on_demand_deactivate s = record (init []) { published = s.published }

pub on_demand_connected : Bytes → FlvSource → FlvSource
on_demand_connected body s = record s { buffer_data = body }
