-- ===== src/FlvSource/Ends.antt =====
-- savate/flv_source.py: the fuel of the loop over a stream.
use savate.Prelude.{
  Bool, Bytes, List, Option, [], arith, drop, false, if◌then◌else◌, is_empty, length, ltb, none,
  refl, some, suc, take, true, zero, ℕ, ◌+◌, ◌<◌, ◌∷◌, ◌≡◌, ◌≢◌,
}
use savate.BinaryParser.{Parsed, object_size, parse, parsed, refused}
use savate.Flv.{FlvTag, flv_audio_data, flv_header, flv_tag, flv_video_data}
use savate.FlvSource.{
  FlvSource, Result, Stage, add_to_burst_groups, add_to_packets_group, append_data, burst_duration,
  check_for_initial_tag, close_group, drain, drop_old_groups, err, first_timestamp,
  handle_complete_tag, handle_header, handle_packet, handle_tag, handle_tag_body, is_sync_point,
  of_parsed, ok, out_of_fuel, publish_packet, run, step, step_at, step_header, step_tag,
  step_tag_body, ◌>>=◌,
}
use savate.FlvSource.Steps.{step-progress}

abbrev Ends : {A : Type 0} → Result A → Type 0
Ends r = r ≢ err out_of_fuel

Ends-of_parsed : {A : Type 0} (r : Parsed A) → Ends (of_parsed r)
Ends-of_parsed (parsed a) = λ q. cc
Ends-of_parsed (refused e) = λ q. cc

Ends-bind :
    {A B : Type 0} (m : Result A) (f : A → Result B)
    → Ends m
    → ((a : A) → Ends (f a))
    → Ends (m >>= f)
Ends-bind (ok a) f h k = k a
Ends-bind (err e) f h k = λ q. h (ground (arith, q))

Ends-ok : {A : Type 0} (a : A) → Ends (ok a)
Ends-ok a = λ q. cc

Ends-if : {A : Type 0} (b : Bool) (m n : Result A) → Ends m → Ends n → Ends (if b then m else n)
Ends-if true m n h k = h
Ends-if false m n h k = k

Ends-drop_old_groups :
    (g : List FlvTag) (gs : List (List FlvTag)) (ds : List Bytes) → Ends (drop_old_groups g gs ds)
unfolding drop_old_groups first_timestamp
Ends-drop_old_groups g [] ds = λ q. cc
Ends-drop_old_groups g (a ∷ []) ds = λ q. cc
Ends-drop_old_groups [] (a ∷ b ∷ gs) ds = λ q. cc
Ends-drop_old_groups (t ∷ g) (a ∷ [] ∷ gs) ds = λ q. cc
Ends-drop_old_groups (t ∷ g) (a ∷ (u ∷ b) ∷ gs) ds =
    let more = Ends-drop_old_groups (t ∷ g) ((u ∷ b) ∷ gs) (drop 1 ds) in
    Ends-if (ltb (u.timestamp + burst_duration) t.timestamp) _ _
      (Ends-if (is_empty ds) _ _ (λ q. cc) more) (λ q. cc)

Ends-close_group : (s : FlvSource) → Ends (close_group s)
unfolding close_group add_to_burst_groups publish_packet
Ends-close_group s =
    Ends-bind _ _
      (Ends-bind _ _ (Ends-drop_old_groups s.packets_group s.burst_groups s.burst_groups_data)
        (λ r. Ends-ok _))
      (λ s'. Ends-ok _)

Ends-is_sync_point : (t : FlvTag) (s : FlvSource) → Ends (is_sync_point t s)
unfolding is_sync_point
Ends-is_sync_point t s =
    ground (arith, Ends-of_parsed (parse flv_video_data (take (object_size flv_video_data) t.body)))

Ends-check_for_initial_tag : (t : FlvTag) (s : FlvSource) → Ends (check_for_initial_tag t s)
unfolding check_for_initial_tag
Ends-check_for_initial_tag t s = ground (
  arith,
  Ends-of_parsed (parse flv_video_data (take (object_size flv_video_data) t.body)),
  Ends-of_parsed (parse flv_audio_data (take (object_size flv_audio_data) t.body)),
)

Ends-handle_complete_tag : (t : FlvTag) (s : FlvSource) → Ends (handle_complete_tag t s)
unfolding handle_complete_tag add_to_packets_group
Ends-handle_complete_tag t s = Ends-bind _ _ (Ends-check_for_initial_tag t s) (λ r.
    Ends-if r.0 _ _ (Ends-ok _) (
      Ends-bind _ _ (Ends-is_sync_point t r.1)
        (λ b. Ends-bind _ _ (Ends-if b _ _ (Ends-close_group r.1) (Ends-ok _)) (λ s'. Ends-ok _))))

Ends-step_at : (g : Stage) (s : FlvSource) → Ends (step_at g s)
unfolding step_at step_header step_tag step_tag_body
Ends-step_at handle_header s =
    Ends-if _ _ _ (Ends-bind _ _ (Ends-of_parsed (parse flv_header s.buffer_data)) (λ h. Ends-ok _))
      (Ends-ok _)
Ends-step_at handle_tag s =
    Ends-if _ _ _ (Ends-bind _ _ (Ends-of_parsed (parse flv_tag s.buffer_data)) (λ h. Ends-ok _))
      (Ends-ok _)
Ends-step_at (handle_tag_body t) s =
    Ends-if _ _ _ (Ends-bind _ _ (Ends-handle_complete_tag _ s) (λ h. Ends-ok _)) (Ends-ok _)

Ends-run : (f : ℕ) (s : FlvSource) → length s.buffer_data < f → Ends (run f s)
Ends-run zero s h = elim h [ ]
Ends-run (suc f) s h = go (step s) refl (λ s' lt. Ends-run f s' (omega arith))
  where
    go :
        (r : Result (Option FlvSource))
        → step s ≡ r
        → ((s' : FlvSource) → length s'.buffer_data < length s.buffer_data → Ends (run f s'))
        → Ends (run (suc f) s)
    go (err e) p again = λ q. unfold step run in Ends-step_at s.handle_data s (ground (arith, p, q))
    go (ok none) p again = λ q. unfold run in ground (arith, p, q)
    go (ok (some s')) p again =
        λ q. again s' (step-progress s s' p) (unfold run in ground (arith, p, q))

-- `handle_packet` ends on every packet and in every state: each round of its loop takes bytes from
-- the buffer, so a number of rounds equal to the bytes at hand and one more is enough.
pub handle_packet-ne-out_of_fuel :
    (packet : Bytes) (s : FlvSource) → handle_packet packet s ≢ err out_of_fuel
unfolding handle_packet drain
handle_packet-ne-out_of_fuel packet s =
    Ends-run (suc (length (append_data packet s).buffer_data)) (append_data packet s) (omega arith)
