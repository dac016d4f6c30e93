-- ===== src/BurstQueue.antt =====
-- savate/helpers.py, class BurstQueue: the most recent packets of a stream, which a new client gets
-- first. `current_size` is a counter beside the deque.
pub mod Bounds
mod Examples
use savate.Prelude.{
  Bytes, List, Option, [], if◌then◌else◌, length, ltb, none, some, total_length, ℕ, ◌++◌, ◌+◌, ◌-◌,
  ◌∷◌,
}

pub record BurstQueue : Type 0 where
  pub items : List Bytes
  pub maxbytes : ℕ
  pub current_size : ℕ

-- `__init__`
pub init : ℕ → List Bytes → BurstQueue
init maxbytes iterable = record {
  items = iterable;
  maxbytes = maxbytes;
  current_size = total_length iterable;
}

-- The loop of `_discard`: the queue and the counter that it leaves. `none` is the IndexError of
-- `self[0]` on an empty deque. `current_size - len(self[0]) > maxbytes` is written as a sum, which
-- agrees with Python's signed difference.
discard_from : ℕ → List Bytes → ℕ → Option (List Bytes × ℕ)
discard_from maxbytes [] size = none
discard_from maxbytes (b ∷ bs) size =
    let rest = discard_from maxbytes bs (size - length b) in
    if ltb (maxbytes + length b) size then rest else some (b ∷ bs, size)

pub discard : BurstQueue → Option BurstQueue
unfolding discard_from
discard q = elim (discard_from q.maxbytes q.items q.current_size) [
  | none ↦ none
  | some (items, size) ↦ some (record q { items = items; current_size = size })
]

pub append : BurstQueue → Bytes → Option BurstQueue
append q b =
    discard (record q { items = q.items ++ b ∷ []; current_size = q.current_size + length b })

pub extend : BurstQueue → List Bytes → Option BurstQueue
extend q bs =
    discard (record q { items = q.items ++ bs; current_size = q.current_size + total_length bs })

-- `popleft`, with the packet that it returns; `none` is the IndexError of an empty deque.
pub popleft : BurstQueue → Option (Bytes × BurstQueue)
popleft q = elim q.items [
  | [] ↦ none
  | b ∷ bs ↦ some (b, record q { items = bs; current_size = q.current_size - length b })
]

-- The last item and those before it.
split_last : Bytes → List Bytes → List Bytes × Bytes
split_last b [] = ([], b)
split_last b (c ∷ cs) = let (front, l) = split_last c cs in (b ∷ front, l)

pub pop : BurstQueue → Option (Bytes × BurstQueue)
unfolding split_last
pop q = elim q.items [
  | [] ↦ none
  | b ∷ bs ↦
      let (front, l) = split_last b bs in
      some (l, record q { items = front; current_size = q.current_size - length l })
]

pub clear : BurstQueue → BurstQueue
clear q = record q { items = []; current_size = 0 }
