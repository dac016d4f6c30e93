-- ===== src/BurstQueue/Examples.antt =====
-- A burst queue of at most four bytes behind its first packet.
use savate.Prelude.{Bytes, List, [], arith, refl, some, ◌++◌, ◌∷◌, ◌≡◌}
use savate.BurstQueue.{BurstQueue, append, discard}
use savate.BurstQueue.Bounds.{Discarded, IsCounted, append-Discarded}

abbrev full : BurstQueue
full = record {
  items = (1 ∷ 2 ∷ []) ∷ (3 ∷ []) ∷ (4 ∷ 5 ∷ 6 ∷ []) ∷ [];
  maxbytes = 4;
  current_size = 6;
}

full-IsCounted : IsCounted full
full-IsCounted = omega arith

abbrev seven : List Bytes
seven = (7 ∷ []) ∷ []

-- The first two packets go: five bytes were more than the limit.
append-full :
    append full (7 ∷ 8 ∷ [])
    ≡ some (record full { items = (4 ∷ 5 ∷ 6 ∷ []) ∷ (7 ∷ 8 ∷ []) ∷ []; current_size = 5 })
unfolding append discard
append-full = refl

append-Discarded_example :
    (q : BurstQueue) × (append full (7 ∷ 8 ∷ []) ≡ some q)
    × Discarded 4 (full.items ++ (7 ∷ 8 ∷ []) ∷ []) q
append-Discarded_example = append-Discarded full (7 ∷ 8 ∷ []) full-IsCounted
