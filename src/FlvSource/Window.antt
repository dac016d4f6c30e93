-- ===== src/FlvSource/Window.antt =====
-- savate/flv_source.py: closing a group, and what is taken off the burst.
use savate.Prelude.{
  Bool, Bool-cases, Bytes, List, [], ap, arith, drop, false, if◌then◌else◌, inl, inr, ltb, map,
  refl, take, true, ℕ, ◌++◌, ◌+◌, ◌∷◌, ◌≡◌, ◌≢◌, ◌⊎◌,
}
use savate.BinaryParser.{object_size, parse}
use savate.Flv.{FlvTag, flv_video_data}
use savate.FlvSource.{
  FlvSource, add_to_burst_groups, add_to_packets_group, burst_duration, close_group,
  drop_old_groups, first_timestamp, group_data, is_sync_point, ok, publish_packet, ◌>>=◌,
}
use savate.FlvSource.Burst.{
  Fine, Fine-bind, Fine-map, Fine-of_ne, InWindow, TailFilled, TailFilled-append_one,
  map-append_one, of_parsed-ne-index_error,
}

-- What the loop leaves of the groups, for the tag `t` that begins the newest one.
record Window (t : ℕ) (gs : List (List FlvTag)) (r : List (List FlvTag) × List Bytes) : Type 0 where
  matched : r.1 ≡ map group_data r.0
  filled : TailFilled r.0
  recent : InWindow t r.0
  some_left : gs ≢ [] → r.0 ≢ []

TailFilled-tail :
    (g₀ g₁ : List FlvTag) (gs : List (List FlvTag))
    → TailFilled (g₀ ∷ g₁ ∷ gs)
    → TailFilled (g₁ ∷ gs)
TailFilled-tail g₀ g₁ gs h = h.1

drop_old_groups-Window :
    (t : FlvTag) (g : List FlvTag) (gs : List (List FlvTag)) (ds : List Bytes)
    → ds ≡ map group_data gs
    → TailFilled gs
    → Fine (Window t.timestamp gs) (drop_old_groups (t ∷ g) gs ds)
unfolding drop_old_groups first_timestamp
drop_old_groups-Window t g [] ds e h = record {
  matched = e;
  filled = tt;
  recent = tt;
  some_left = λ k. k;
}
drop_old_groups-Window t g (a ∷ []) ds e h = record {
  matched = e;
  filled = tt;
  recent = tt;
  some_left = λ k. k;
}
drop_old_groups-Window t g (a ∷ [] ∷ gs) ds e h = absurd (h.0 refl)
drop_old_groups-Window t g (a ∷ (u ∷ b) ∷ gs) [] e h = cc
drop_old_groups-Window t g (a ∷ (u ∷ b) ∷ gs) (d ∷ ds) e h =
    split (Bool-cases (ltb (u.timestamp + burst_duration) t.timestamp))
      (drop_old_groups-Window t g ((u ∷ b) ∷ gs) ds (ap (drop 1) e) h.1)
  where
    split :
        (ltb (u.timestamp + burst_duration) t.timestamp ≡ true)
          ⊎ (ltb (u.timestamp + burst_duration) t.timestamp ≡ false)
        → Fine (Window t.timestamp ((u ∷ b) ∷ gs)) (drop_old_groups (t ∷ g) ((u ∷ b) ∷ gs) ds)
        → Fine
            (Window t.timestamp (a ∷ (u ∷ b) ∷ gs))
            (drop_old_groups (t ∷ g) (a ∷ (u ∷ b) ∷ gs) (d ∷ ds))
    split (inl p) ih =
        rw (p, drop_old_groups)
          (Fine-map _ _ (drop_old_groups (t ∷ g) ((u ∷ b) ∷ gs) ds) ih (λ r w. record {
            matched = w.matched;
            filled = w.filled;
            recent = w.recent;
            some_left = λ k. w.some_left (λ q. cc);
          }))
    split (inr p) ih =
        rw (p, drop_old_groups)
          (record { matched = e; filled = h; recent = ground (arith, p); some_left = λ k. cc })

-- The first timestamp of the newest group.
abbrev pub newest : List (List FlvTag) → ℕ
newest [] = 0
newest ([] ∷ []) = 0
newest ((t ∷ g) ∷ []) = t.timestamp
newest (a ∷ b ∷ gs) = newest (b ∷ gs)

pub record IsGrouped (s : FlvSource) : Type 0 where
  pub matched : s.burst_groups_data ≡ map group_data s.burst_groups
  pub filled : TailFilled s.burst_groups
  pub recent : InWindow (newest s.burst_groups) s.burst_groups
  pub started : (s.burst_groups ≡ []) ⊎ (s.packets_group ≢ [])

newest-append_one :
    (t : FlvTag) (g : List FlvTag) (gs : List (List FlvTag))
    → newest (gs ++ (t ∷ g) ∷ []) ≡ t.timestamp
newest-append_one t g [] = refl
newest-append_one t g (a ∷ []) = refl
newest-append_one t g (a ∷ b ∷ gs) = newest-append_one t g (b ∷ gs)

InWindow-append_one :
    (t : FlvTag) (g : List FlvTag) (gs : List (List FlvTag))
    → InWindow t.timestamp gs
    → InWindow t.timestamp (gs ++ (t ∷ g) ∷ [])
InWindow-append_one t g [] h = tt
InWindow-append_one t g (a ∷ []) h = omega arith
InWindow-append_one t g (a ∷ [] ∷ gs) h = tt
InWindow-append_one t g (a ∷ (u ∷ b) ∷ gs) h = h

-- Apart from the group just closed, the burst is as before the source took the next tag.
record IsClosed (s : FlvSource) : Type 0 where
  matched : s.burst_groups_data ≡ map group_data s.burst_groups
  filled : TailFilled s.burst_groups
  recent : InWindow (newest s.burst_groups) s.burst_groups

add_to_burst_groups-IsClosed :
    (s : FlvSource) (group : List FlvTag)
    → s.burst_groups_data ≡ map group_data s.burst_groups
    → TailFilled s.burst_groups
    → (s.burst_groups ≡ []) ⊎ (group ≢ [])
    → Fine IsClosed (add_to_burst_groups group s)
unfolding add_to_burst_groups
add_to_burst_groups-IsClosed s [] m f (inl e) = go s.burst_groups s.burst_groups_data e m
  where
    go :
        (gs : List (List FlvTag)) (ds : List Bytes)
        → gs ≡ []
        → ds ≡ map group_data gs
        → Fine IsClosed (
            drop_old_groups [] gs ds >>= λ r.
            ok (record s { burst_groups = r.0 ++ [] ∷ []; burst_groups_data = r.1 ++ [] ∷ [] }))
    go [] [] p q = unfold drop_old_groups in record { matched = refl; filled = tt; recent = tt }
    go [] (d ∷ ds) p q = cc
    go (a ∷ gs) ds p q = cc
add_to_burst_groups-IsClosed s [] m f (inr k) = absurd (k refl)
add_to_burst_groups-IsClosed s (t ∷ g) m f k =
    Fine-bind (Window t.timestamp s.burst_groups) IsClosed
      (drop_old_groups (t ∷ g) s.burst_groups s.burst_groups_data) _
      (drop_old_groups-Window t g s.burst_groups s.burst_groups_data m f)
      (λ r w. record {
        matched = rw (w.matched, map-append_one r.0 (t ∷ g));
        filled = TailFilled-append_one r.0 (t ∷ g) w.filled (inr (λ q. cc));
        recent = rw newest-append_one (InWindow-append_one t g r.0 w.recent);
      })

Fine-is_sync_point : (t : FlvTag) (s : FlvSource) → Fine (λ b. Unit) (is_sync_point t s)
unfolding is_sync_point
Fine-is_sync_point t s =
    Fine-of_ne (λ b. Unit) (is_sync_point t s)
      (ground (
        arith,
        of_parsed-ne-index_error (parse flv_video_data (take (object_size flv_video_data) t.body)),
      ))
      (λ b p. tt)

pub IsGrouped-add_to_packets_group :
    (t : FlvTag) (s : FlvSource) → IsGrouped s → Fine IsGrouped (add_to_packets_group t s)
unfolding add_to_packets_group close_group publish_packet
IsGrouped-add_to_packets_group t s v =
    Fine-bind (λ b. Unit) IsGrouped (is_sync_point t s) _ (Fine-is_sync_point t s) (λ b u. closes b)
  where
    nonempty : (l : List FlvTag) → l ++ t ∷ [] ≢ []
    nonempty [] = λ q. cc
    nonempty (a ∷ l) = λ q. cc

    closes :
        (b : Bool)
        → Fine IsGrouped (
            (if b then close_group s else ok s) >>= λ s'.
            ok (record s' { packets_group = s'.packets_group ++ t ∷ [] }))
    closes true =
        Fine-bind IsClosed IsGrouped (close_group s) _
          (Fine-bind IsClosed IsClosed
            (add_to_burst_groups s.packets_group (publish_packet (group_data s.packets_group) s)) _
            (add_to_burst_groups-IsClosed (publish_packet (group_data s.packets_group) s)
              s.packets_group v.matched v.filled v.started)
            (λ s' w. record { matched = w.matched; filled = w.filled; recent = w.recent }))
          (λ s' w. record {
            matched = w.matched;
            filled = w.filled;
            recent = w.recent;
            started = inr (nonempty s'.packets_group);
          })
    closes false = record {
      matched = v.matched;
      filled = v.filled;
      recent = v.recent;
      started = inr (nonempty s.packets_group);
    }
