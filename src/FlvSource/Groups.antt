-- ===== src/FlvSource/Groups.antt =====
-- savate/flv_source.py: the burst deques from packet to packet.
use savate.Prelude.{
  Bool, Bytes, Option, arith, drop, false, if◌then◌else◌, inl, leb, length, none, refl, some, suc,
  take, true, zero, ℕ, ◌++◌, ◌+◌, ◌≡◌,
}
use savate.BinaryParser.{object_size, parse}
use savate.Flv.{FlvTag, flv_audio_data, flv_header, flv_tag, flv_video_data, trailer_size}
use savate.FlvSource.{
  FlvSource, Result, Stage, add_to_packets_group, append_data, binary_parser, check_for_initial_tag,
  drain, err, handle_complete_tag, handle_header, handle_packet, handle_tag, handle_tag_body,
  index_error, init, of_parsed, ok, out_of_fuel, publish_packet, run, step, step_at, step_header,
  step_tag, step_tag_body, ◌>>=◌,
}
use savate.FlvSource.Burst.{Fine, Fine-bind, Fine-of_ne, Fine-of_parsed, of_parsed-ne-index_error}
use savate.FlvSource.Window.{IsGrouped, IsGrouped-add_to_packets_group}

-- The same groups, whatever else changes.
SameGroups : FlvSource → FlvSource → Type 0
SameGroups s s' =
    (s'.burst_groups ≡ s.burst_groups)
    × (s'.burst_groups_data ≡ s.burst_groups_data)
    × (s'.packets_group ≡ s.packets_group)

SameGroups-IsGrouped : (s s' : FlvSource) → SameGroups s s' → IsGrouped s → IsGrouped s'
unfolding SameGroups
SameGroups-IsGrouped s s' e v = record {
  matched = rw (e.0, e.1) v.matched;
  filled = rw e.0 v.filled;
  recent = rw e.0 v.recent;
  started = rw (e.0, e.2) v.started;
}

SameGroups-check_for_initial_tag :
    (t : FlvTag) (s : FlvSource) → Fine (λ r. SameGroups s r.1) (check_for_initial_tag t s)
unfolding check_for_initial_tag SameGroups
SameGroups-check_for_initial_tag t s =
    Fine-of_ne (λ r. SameGroups s r.1) (check_for_initial_tag t s)
      (ground (
        arith,
        of_parsed-ne-index_error (parse flv_video_data (take (object_size flv_video_data) t.body)),
        of_parsed-ne-index_error (parse flv_audio_data (take (object_size flv_audio_data) t.body)),
      ))
      (λ r p. (ground (arith, p), ground (arith, p), ground (arith, p)))

IsGrouped-handle_complete_tag :
    (t : FlvTag) (s : FlvSource) → IsGrouped s → Fine IsGrouped (handle_complete_tag t s)
unfolding handle_complete_tag publish_packet
IsGrouped-handle_complete_tag t s v =
    Fine-bind (λ r. SameGroups s r.1) IsGrouped (check_for_initial_tag t s) _
      (SameGroups-check_for_initial_tag t s) (λ r e. after r.0 r.1 (SameGroups-IsGrouped s r.1 e v))
  where
    after :
        (b : Bool) (s₁ : FlvSource)
        → IsGrouped s₁
        → Fine IsGrouped (
            if b
            then ok (publish_packet t.body (publish_packet t.raw_data s₁))
            else add_to_packets_group t s₁)
    after true s₁ w = record {
      matched = w.matched;
      filled = w.filled;
      recent = w.recent;
      started = w.started;
    }
    after false s₁ w = IsGrouped-add_to_packets_group t s₁ w

abbrev StillGrouped : Option FlvSource → Type 0
StillGrouped none = Unit
StillGrouped (some s) = IsGrouped s

-- The shape of the three parsing steps.
Fine-round :
    {A : Type 0} (P : A → Type 0) (b : Bool) (m : Result A) (f : A → Result (Option FlvSource))
    → Fine P m
    → ((a : A) → P a → Fine StillGrouped (f a))
    → Fine StillGrouped (if b then (m >>= f) else ok none)
Fine-round P true m f h k = Fine-bind P StillGrouped m f h k
Fine-round P false m f h k = tt

IsGrouped-step_at : (g : Stage) (s : FlvSource) → IsGrouped s → Fine StillGrouped (step_at g s)
unfolding step_at step_header step_tag step_tag_body publish_packet
IsGrouped-step_at handle_header s v =
    (Fine-round (λ h. Unit) (leb (object_size flv_header) (length s.buffer_data))
      (of_parsed (parse flv_header s.buffer_data))
      (λ h. ok (
        some (record (publish_packet h.raw_data s) {
          stream_header = some h;
          buffer_data = drop (object_size flv_header) s.buffer_data;
          handle_data = handle_tag;
        })))
      (Fine-of_parsed (parse flv_header s.buffer_data))
      (λ h u. record {
        matched = v.matched;
        filled = v.filled;
        recent = v.recent;
        started = v.started;
      }))
IsGrouped-step_at handle_tag s v =
    (Fine-round (λ h. Unit) (leb (object_size flv_tag) (length s.buffer_data))
      (of_parsed (parse flv_tag s.buffer_data))
      (λ t. ok (
        some (record s {
          buffer_data = drop (object_size flv_tag) s.buffer_data;
          handle_data = handle_tag_body t;
        })))
      (Fine-of_parsed (parse flv_tag s.buffer_data))
      (λ h u. record {
        matched = v.matched;
        filled = v.filled;
        recent = v.recent;
        started = v.started;
      }))
IsGrouped-step_at (handle_tag_body t) s v =
    (Fine-round IsGrouped (leb (t.data_size + trailer_size) (length s.buffer_data))
      (handle_complete_tag t' s)
      (λ s'. ok (
        some (record s' {
          buffer_data = drop (t.data_size + trailer_size) s.buffer_data;
          handle_data = handle_tag;
        })))
      (IsGrouped-handle_complete_tag t' s v)
      (λ s' w. record {
        matched = w.matched;
        filled = w.filled;
        recent = w.recent;
        started = w.started;
      }))
  where
    t' : FlvTag
    t' = record t { body = take (t.data_size + trailer_size) s.buffer_data }

IsGrouped-run : (f : ℕ) (s : FlvSource) → IsGrouped s → Fine IsGrouped (run f s)
unfolding run
IsGrouped-run zero s v = tt
IsGrouped-run (suc f) s v =
    go (step s) (unfold step in IsGrouped-step_at s.handle_data s v) (λ s' w. IsGrouped-run f s' w)
  where
    go :
        (r : Result (Option FlvSource))
        → Fine StillGrouped r
        → ((s' : FlvSource) → IsGrouped s' → Fine IsGrouped (run f s'))
        → Fine IsGrouped (elim r [ err e ↦ err e | ok none ↦ ok s | ok (some s') ↦ run f s' ])
    go (err index_error) h again = h
    go (err (binary_parser e)) h again = tt
    go (err out_of_fuel) h again = tt
    go (ok none) h again = v
    go (ok (some s')) h again = again s' h

pub init-IsGrouped : (body : Bytes) → IsGrouped (init body)
unfolding init
init-IsGrouped body = record { matched = refl; filled = tt; recent = tt; started = inl refl }

-- From a state with consistent groups, `handle_packet` raises no IndexError, and what it leaves has
-- consistent groups again: the stored burst data are the groups' bytes, every group but the first
-- holds a tag, and the second group begins at most `BURST_DURATION` before the newest one.
pub handle_packet-IsGrouped :
    (packet : Bytes) (s : FlvSource) → IsGrouped s → Fine IsGrouped (handle_packet packet s)
unfolding handle_packet drain append_data
handle_packet-IsGrouped packet s v =
    IsGrouped-run (suc (length (s.buffer_data ++ packet))) (append_data packet s)
      (record { matched = v.matched; filled = v.filled; recent = v.recent; started = v.started })
