-- ===== src/BurstQueue/Bounds.antt =====
-- savate/helpers.py, class BurstQueue: its counter and its length.
use savate.Prelude.{
  Bool-cases, Bytes, List, [], ap, arith, inl, inr, length, ltb, none, refl, some, total_length,
  total_length-append, ℕ, ◌++◌, ◌+◌, ◌-◌, ◌<◌, ◌∙◌, ◌∷◌, ◌≡◌, ◌≢◌, ◌≤◌, ◌⊎◌,
}
use savate.BurstQueue.{BurstQueue, append, discard, discard_from, extend, pop, popleft, split_last}

pub record IsCounted (q : BurstQueue) : Type 0 where
  pub counted : q.current_size ≡ total_length q.items

-- What `_discard` drops, and what it leaves.
pub data Kept (maxbytes : ℕ) (before after : List Bytes) : Type 0 where
  kept :
      (dropped : List Bytes) (b : Bytes) (bs : List Bytes)
      → before ≡ dropped ++ after
      → after ≡ b ∷ bs
      → total_length bs ≤ maxbytes
      → (dropped ≡ []) ⊎ (maxbytes < total_length after)
      → Kept maxbytes before after

discard_from-Kept :
    (m : ℕ) (b : Bytes) (bs : List Bytes) (size : ℕ)
    → size ≡ total_length (b ∷ bs)
    → (out : List Bytes × ℕ) × (discard_from m (b ∷ bs) size ≡ some out)
      × Kept m (b ∷ bs) out.0
      × (out.1 ≡ total_length out.0)
unfolding discard_from
discard_from-Kept m b [] size e =
    ((b ∷ [], size), ground arith, kept [] b [] refl refl (omega arith) (inl refl), ground arith)
discard_from-Kept m b (c ∷ cs) size e = elim (Bool-cases (ltb (m + length b) size)) [
  | inl more ↦
      let (out, p, k, s) = discard_from-Kept m c cs (size - length b) (omega arith) in
      (out, rw more p, extend_dropped k (ground arith), s)
  | inr stop ↦
      ((b ∷ c ∷ cs, size), rw stop, kept [] b (c ∷ cs) refl refl (ground arith) (inl refl), e)
]
  where
    extend_dropped :
        {after : List Bytes}
        → Kept m (c ∷ cs) after
        → m < total_length (c ∷ cs)
        → Kept m (b ∷ c ∷ cs) after
    extend_dropped {after} (kept dropped h t p q bound keep) lt =
        kept (b ∷ dropped) h t (ap (λ l. b ∷ l) p) q bound
          (inr (elim keep [ inl e ↦ rw (← shorter e) lt | inr big ↦ big ]))
      where
        shorter : dropped ≡ [] → c ∷ cs ≡ after
        shorter e = p ∙ ap (λ l. l ++ after) e

-- What an operation that ends in `_discard` makes of the list `before`.
pub record Discarded (maxbytes : ℕ) (before : List Bytes) (q : BurstQueue) : Type 0 where
  pub limit : q.maxbytes ≡ maxbytes
  pub counted : q.current_size ≡ total_length q.items
  pub kept : Kept maxbytes before q.items

discard-Discarded :
    (m : ℕ) (l : List Bytes) (size : ℕ)
    → l ≢ []
    → size ≡ total_length l
    → (q : BurstQueue) × (discard (record { items = l; maxbytes = m; current_size = size })
        ≡ some q)
      × Discarded m l q
unfolding discard
discard-Discarded m [] size ne e = absurd (ne refl)
discard-Discarded m (b ∷ bs) size ne e =
    let (out, p, k, s) = discard_from-Kept m b bs size e in
    (
      record { items = out.0; maxbytes = m; current_size = out.1 },
      rw (p, discard),
      record { limit = refl; counted = s; kept = k },
    )

append_one-ne-nil : (l : List Bytes) (b : Bytes) → l ++ b ∷ [] ≢ []
append_one-ne-nil [] b e = cc
append_one-ne-nil (c ∷ cs) b e = cc

-- Appending a packet to a queue whose counter is right never fails, and leaves the counter right.
-- The queue that is left is a suffix of the old one with the packet behind it: without its first
-- packet it holds at most `maxbytes` bytes, and if anything was dropped it holds more than that.
pub append-Discarded :
    (q : BurstQueue) (b : Bytes)
    → IsCounted q
    → (q' : BurstQueue) × (append q b ≡ some q') × Discarded q.maxbytes (q.items ++ b ∷ []) q'
unfolding append
append-Discarded q b v =
    discard-Discarded q.maxbytes (q.items ++ b ∷ []) (q.current_size + length b)
      (append_one-ne-nil q.items b) (omega (arith, total_length-append q.items (b ∷ [])))

append-ne-nil : (xs ys : List Bytes) → (xs ≢ []) ⊎ (ys ≢ []) → xs ++ ys ≢ []
append-ne-nil [] ys (inl h) = absurd (h refl)
append-ne-nil [] ys (inr h) = h
append-ne-nil (x ∷ xs) ys h = λ e. cc

-- `extend` ends as `append` does, unless both the queue and the packets are empty: then it fails,
-- by the IndexError of `self[0]`.
pub extend-Discarded :
    (q : BurstQueue) (bs : List Bytes)
    → IsCounted q
    → ((q.items ≢ []) ⊎ (bs ≢ [])
        → (q' : BurstQueue) × (extend q bs ≡ some q') × Discarded q.maxbytes (q.items ++ bs) q')
      × (q.items ≡ [] → bs ≡ [] → extend q bs ≡ none)
unfolding extend
extend-Discarded q bs v = (
  λ h.
      discard-Discarded q.maxbytes (q.items ++ bs) (q.current_size + total_length bs)
        (append-ne-nil q.items bs h) (omega (arith, total_length-append q.items bs)),
  λ e f. fails e f,
)
  where
    fails : q.items ≡ [] → bs ≡ [] → extend q bs ≡ none
    fails e f = rw (e, f) (unfold discard discard_from in refl)

split_last-append :
    (b : Bytes) (bs : List Bytes) → (split_last b bs).0 ++ (split_last b bs).1 ∷ [] ≡ b ∷ bs
unfolding split_last
split_last-append b [] = refl
split_last-append b (c ∷ cs) = ap (λ l. b ∷ l) (split_last-append c cs)

-- On a queue that holds packets, with the counter right, `popleft` and `pop` return the packet at
-- their end, leave the others in order, and keep the counter right; on an empty one both fail.
pub pops :
    (b : Bytes) (bs : List Bytes) (q : BurstQueue)
    → IsCounted q
    → (q.items ≡ [] → (popleft q ≡ none) × (pop q ≡ none))
      × (q.items ≡ b ∷ bs
          → ((q' : BurstQueue) × (popleft q ≡ some (b, q')) × (q'.items ≡ bs) × IsCounted q')
            × ((r : Bytes × BurstQueue) × (pop q ≡ some r)
                × (r.1.items ++ r.0 ∷ [] ≡ b ∷ bs)
                × IsCounted r.1))
unfolding popleft pop
pops b bs q v = (
  λ e. (rw (e, popleft), rw (e, pop)),
  λ e. (
    (
      record q { items = bs; current_size = q.current_size - length b },
      rw (e, popleft),
      refl,
      record { counted = counts e },
    ),
    (
      (
        (split_last b bs).1,
        record q {
          items = (split_last b bs).0;
          current_size = q.current_size - length (split_last b bs).1;
        },
      ),
      rw (e, pop),
      split_last-append b bs,
      record { counted = front_counts e },
    ),
  ),
)
  where
    counts : q.items ≡ b ∷ bs → q.current_size - length b ≡ total_length bs
    counts e = ground arith

    front_counts :
        q.items ≡ b ∷ bs
        → q.current_size - length (split_last b bs).1 ≡ total_length (split_last b bs).0
    front_counts e = ground (
      arith,
      total_length-append (split_last b bs).0 ((split_last b bs).1 ∷ []),
      split_last-append b bs,
    )
