-- ===== src/FlvSource/Examples.antt =====
-- A short FLV stream: the header, a video keyframe, and the start of a second one.
use savate.Prelude.{Bytes, [], refl, ◌++◌, ◌∷◌, ◌≡◌, ◌≢◌}
use savate.BinaryParser.{parse}
use savate.Flv.{flv_header, flv_tag, flv_video_data}
use savate.FlvSource.{
  add_to_burst_groups, add_to_packets_group, append_data, check_for_initial_tag, close_group, drain,
  drop_old_groups, err, first_timestamp, handle_complete_tag, handle_packet, init, is_sync_point,
  ok, out_of_fuel, publish_packet, run, step, step_at, step_header, step_tag, step_tag_body, ◌>>=◌,
}
use savate.FlvSource.Chunks.{handle_packet-append}
use savate.FlvSource.Ends.{handle_packet-ne-out_of_fuel}
use savate.FlvSource.Burst.{Fine}
use savate.FlvSource.Window.{IsGrouped}
use savate.FlvSource.Groups.{handle_packet-IsGrouped, init-IsGrouped}

abbrev header_bytes : Bytes
header_bytes = b'F' ∷ b'L' ∷ b'V' ∷ 1 ∷ 1 ∷ 0 ∷ 0 ∷ 0 ∷ 9 ∷ 0 ∷ 0 ∷ 0 ∷ 0 ∷ []

-- A tag of two bytes of data and four of trailer: an H.263 keyframe.
abbrev tag_bytes : Bytes
tag_bytes = 9 ∷ 0 ∷ 0 ∷ 2 ∷ 0 ∷ 0 ∷ 40 ∷ 0 ∷ 0 ∷ 0 ∷ 0 ∷ 0x12 ∷ 77 ∷ 0 ∷ 0 ∷ 0 ∷ 13 ∷ []

-- The header is published, and the keyframe waits for the group's end; the group before it was
-- empty.
publishes :
    (handle_packet (header_bytes ++ tag_bytes) (init []) >>= λ s. ok s.published)
    ≡ ok (header_bytes ∷ [] ∷ [])
unfolding handle_packet drain run step step_at step_header step_tag step_tag_body append_data init
    handle_complete_tag check_for_initial_tag add_to_packets_group is_sync_point close_group
    add_to_burst_groups drop_old_groups first_timestamp publish_packet parse flv_header flv_tag
    flv_video_data
publishes = refl

handle_packet-append_example :
    handle_packet (header_bytes ++ tag_bytes) (init [])
    ≡ (handle_packet header_bytes (init []) >>= λ s. handle_packet tag_bytes s)
handle_packet-append_example = handle_packet-append header_bytes tag_bytes (init [])

handle_packet-ne-out_of_fuel_example :
    handle_packet (header_bytes ++ tag_bytes) (init []) ≢ err out_of_fuel
handle_packet-ne-out_of_fuel_example =
    handle_packet-ne-out_of_fuel (header_bytes ++ tag_bytes) (init [])

handle_packet-IsGrouped_example :
    Fine IsGrouped (handle_packet (header_bytes ++ tag_bytes) (init []))
handle_packet-IsGrouped_example =
    handle_packet-IsGrouped (header_bytes ++ tag_bytes) (init []) (init-IsGrouped [])
