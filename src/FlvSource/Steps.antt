-- ===== src/FlvSource/Steps.antt =====
-- savate/flv_source.py: one round of the loop over a stream.
use savate.Prelude.{
  Bool, Bytes, Option, arith, drop-append, false, length, length-append, length-drop, none, refl,
  some, take, take-append, true, ◌+◌, ◌<◌, ◌≡◌,
}
use savate.BinaryParser.{object_size}
use savate.BinaryParser.BigEndian.{parse-append}
use savate.Flv.{FlvTag, flv_header, flv_tag, trailer_size}
use savate.FlvSource.{
  FlvSource, Result, Stage, add_to_burst_groups, add_to_packets_group, append_data,
  check_for_initial_tag, close_group, err, handle_complete_tag, handle_header, handle_tag,
  handle_tag_body, is_sync_point, ok, publish_packet, step, step_at, step_header, step_tag,
  step_tag_body, ◌>>=◌,
}

-- Pass over a step that has more data behind the buffer.
abbrev pub extended : Bytes → Result (Option FlvSource) → Result (Option FlvSource)
extended q (err e) = err e
extended q (ok none) = ok none
extended q (ok (some s)) = ok (some (append_data q s))

-- The step is not one that waits.
abbrev pub Moves : Result (Option FlvSource) → Type 0
Moves (ok none) = ⊥
Moves _ = Unit {0}

step_header-append :
    (q : Bytes) (s : FlvSource)
    → Moves (step_header s)
    → step_header (append_data q s) ≡ extended q (step_header s)
unfolding step_header append_data publish_packet
step_header-append q s m =
    let n = object_size flv_header in
    ground (
      arith,
      parse-append flv_header s.buffer_data q,
      drop-append n s.buffer_data q,
      length-append s.buffer_data q,
    )

step_tag-append :
    (q : Bytes) (s : FlvSource)
    → Moves (step_tag s)
    → step_tag (append_data q s) ≡ extended q (step_tag s)
unfolding step_tag append_data
step_tag-append q s m =
    let n = object_size flv_tag in
    ground (
      arith,
      parse-append flv_tag s.buffer_data q,
      drop-append n s.buffer_data q,
      length-append s.buffer_data q,
    )

-- What is done with a complete tag does not look at the buffer.
check_for_initial_tag-append :
    (q : Bytes) (t : FlvTag) (s : FlvSource)
    → check_for_initial_tag t (append_data q s)
      ≡ (check_for_initial_tag t s >>= λ r. ok (r.0, append_data q r.1))
unfolding check_for_initial_tag append_data
check_for_initial_tag-append q t s = ground arith

close_group-append :
    (q : Bytes) (s : FlvSource)
    → close_group (append_data q s) ≡ (close_group s >>= λ s'. ok (append_data q s'))
unfolding append_data close_group add_to_burst_groups publish_packet
close_group-append q s = ground arith

is_sync_point-append :
    (q : Bytes) (t : FlvTag) (s : FlvSource) → is_sync_point t (append_data q s) ≡ is_sync_point t s
unfolding append_data is_sync_point
is_sync_point-append q t s = refl

add_to_packets_group-append :
    (q : Bytes) (t : FlvTag) (s : FlvSource)
    → add_to_packets_group t (append_data q s)
      ≡ (add_to_packets_group t s >>= λ s'. ok (append_data q s'))
unfolding append_data add_to_packets_group
add_to_packets_group-append q t s =
    ground (arith, close_group-append q s, is_sync_point-append q t s)

handle_complete_tag-append :
    (q : Bytes) (t : FlvTag) (s : FlvSource)
    → handle_complete_tag t (append_data q s)
      ≡ (handle_complete_tag t s >>= λ s'. ok (append_data q s'))
unfolding append_data handle_complete_tag publish_packet
handle_complete_tag-append q t s = go (check_for_initial_tag t s) refl
  where
    go :
        (o : Result (Bool × FlvSource))
        → check_for_initial_tag t s ≡ o
        → handle_complete_tag t (append_data q s)
          ≡ (handle_complete_tag t s >>= λ s'. ok (append_data q s'))
    go (err e) p = ground (arith, p, check_for_initial_tag-append q t s)
    go (ok (true, s₁)) p = ground (arith, p, check_for_initial_tag-append q t s)
    go (ok (false, s₁)) p =
        ground (arith, p, check_for_initial_tag-append q t s, add_to_packets_group-append q t s₁)

step_tag_body-append :
    (q : Bytes) (t : FlvTag) (s : FlvSource)
    → Moves (step_tag_body t s)
    → step_tag_body t (append_data q s) ≡ extended q (step_tag_body t s)
unfolding step_tag_body append_data
step_tag_body-append q t s m =
    let n = t.data_size + trailer_size in
    ground (
      arith,
      take-append n s.buffer_data q,
      drop-append n s.buffer_data q,
      length-append s.buffer_data q,
      handle_complete_tag-append q (record t { body = take n s.buffer_data }) s,
    )

step_at-append :
    (q : Bytes) (g : Stage) (s : FlvSource)
    → Moves (step_at g s)
    → step_at g (append_data q s) ≡ extended q (step_at g s)
unfolding step_at
step_at-append q handle_header s m = step_header-append q s m
step_at-append q handle_tag s m = step_tag-append q s m
step_at-append q (handle_tag_body t) s m = step_tag_body-append q t s m

pub step-append :
    (q : Bytes) (s : FlvSource) → Moves (step s) → step (append_data q s) ≡ extended q (step s)
unfolding step append_data
step-append q s m = step_at-append q s.handle_data s m

step_tag_body-progress :
    (t : FlvTag) (s s' : FlvSource)
    → step_tag_body t s ≡ ok (some s')
    → length s'.buffer_data < length s.buffer_data
unfolding step_tag_body
step_tag_body-progress t s s' p =
    ground (arith, length-drop (t.data_size + trailer_size) s.buffer_data)

step_at-progress :
    (g : Stage) (s s' : FlvSource)
    → step_at g s ≡ ok (some s')
    → length s'.buffer_data < length s.buffer_data
unfolding step_at step_header step_tag object_size flv_header flv_tag publish_packet
step_at-progress handle_header s s' p = ground (arith, length-drop 13 s.buffer_data)
step_at-progress handle_tag s s' p = ground (arith, length-drop 11 s.buffer_data)
step_at-progress (handle_tag_body t) s s' p = step_tag_body-progress t s s' p

-- Every round that goes on shortens the buffer.
pub step-progress :
    (s s' : FlvSource) → step s ≡ ok (some s') → length s'.buffer_data < length s.buffer_data
unfolding step
step-progress s s' p = step_at-progress s.handle_data s s' p
