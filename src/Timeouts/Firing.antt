-- ===== src/Timeouts/Firing.antt =====
-- `handle_event` when a timer is due: the callbacks it runs, and what is left.
use savate.Prelude.{
  Bool, Eq, List, Option, [], arith, false, if◌then◌else◌, inl, inr, length, none, refl, some, suc,
  true, zero, ℕ, ◌<◌, ◌==◌, ◌∷◌, ◌≡◌, ◌≢◌, ◌≤◌, ◌⊎◌,
}
use savate.Prelude.{nat_eq}
use savate.Dict.{Dict, has, lookup, put, remove}
use savate.Dict.Laws.{beq_refl, length-remove_lt, lookup-nil, lookup-put, lookup-remove}
use savate.Timeouts.{
  Timeouts, bucket, done, fire_all, fire_last, handle_event, last_entry, min_expiration, rearm,
}
use savate.Timeouts.Consistency.{IsConsistent}
use savate.Timeouts.Arming.{ArmedBy, IsArmed, min_expiration-none, min_expiration_lem}

has-last_entry :
    {K C : Type 0} ⦃e : Eq K⦄ (a : K × C) (d : Dict K C) → has (last_entry a d).0 (a ∷ d) ≡ true
unfolding last_entry lookup
has-last_entry (k, c) [] = ground (arith, beq_refl k)
has-last_entry (k, c) ((j, b) ∷ d) = ground (arith, has-last_entry (j, b) d)

module _ {K C : Type 0} ⦃e : Eq K⦄ where
  bucket-remove :
      (x y : ℕ) (s s' : Timeouts K C)
      → s'.timeouts ≡ remove x s.timeouts
      → bucket y s' ≡ (if x == y then [] else bucket y s)
  unfolding bucket
  bucket-remove x y s s' p = ground (arith, p, lookup-remove {K = ℕ} x y s.timeouts)

  timeouts-rearm : (x : ℕ) (s : Timeouts K C) → (rearm x s).timeouts ≡ remove x s.timeouts
  unfolding rearm
  timeouts-rearm x s = ground arith

  handlers-rearm : (x : ℕ) (s : Timeouts K C) → (rearm x s).handlers_timeouts ≡ s.handlers_timeouts
  unfolding rearm
  handlers-rearm x s = ground arith

  rearm-IsConsistent :
      (x : ℕ) (s : Timeouts K C) → IsConsistent s → bucket x s ≡ [] → IsConsistent (rearm x s)
  rearm-IsConsistent x s v h = record {
    agree = λ k y. ground (
      arith,
      handlers-rearm x s,
      bucket-remove x y s (rearm x s) (timeouts-rearm x s),
      lookup-nil {V = C} k,
      v.agree k y,
      h,
    );
  }

  bucket-rearm : (x : ℕ) (s : Timeouts K C) → bucket x (rearm x s) ≡ []
  bucket-rearm x s = ground (arith, bucket-remove x x s (rearm x s) (timeouts-rearm x s))

  rearm-IsArmed : (x : ℕ) (s : Timeouts K C) → IsArmed (rearm x s)
  unfolding rearm
  rearm-IsArmed x s = record {
    due = λ y h. go y (rw timeouts-rearm at h) (min_expiration (remove x s.timeouts)) refl;
  }
    where
      go :
          (y : ℕ)
          → has y (remove x s.timeouts) ≡ true
          → (o : Option ℕ) → min_expiration (remove x s.timeouts) ≡ o
          → ArmedBy (rearm x s).armed y
      go y h none p = absurd (ground (arith, h, min_expiration-none (remove x s.timeouts) y p))
      go y h (some m) p =
          let (here, least) = min_expiration_lem (remove x s.timeouts) m p in
          rw (p, rearm) (least y h)

module _ {K C W : Type 0} ⦃e : Eq K⦄ (call : C → Timeouts K C → W → Option (Timeouts K C × W)) where
  -- What a callback leaves of the timeouts while those of `x` fire: it may reset and remove any, but
  -- files nothing under `x` again and drops no bucket.
  pub record Leaves (x : ℕ) (s s' : Timeouts K C) : Type 0 where
    pub consistent : IsConsistent s'
    pub no_more : length (bucket x s') ≤ length (bucket x s)
    pub kept : has x s'.timeouts ≡ has x s.timeouts

  abbrev pub IsQuiet : ℕ → Type 0
  IsQuiet x =
      (c : C) (s : Timeouts K C) (w : W)
      → IsConsistent s
      → (r : Timeouts K C × W) × (call c s w ≡ some r) × Leaves x s r.0

  -- The state that `popitem` and `handlers_timeouts.pop` leave.
  abbrev pub popped : ℕ → K → Dict K C → Timeouts K C → Timeouts K C
  popped x k b s = record s {
    timeouts = put x (remove k b) s.timeouts;
    handlers_timeouts = remove k s.handlers_timeouts;
  }

  -- A row of callbacks run one after the other: each is that of the entry of `x` that was filed last, is
  -- called once that entry is taken out, and does not raise. The entries that were fired are listed.
  pub data Fires (x : ℕ) : Timeouts K C → W → List (K × C) → Timeouts K C → W → Type 0 where
    no_more_due : {s : Timeouts K C} {w : W} → bucket x s ≡ [] → Fires x s w [] s w
    fires :
        {s s₁ s' : Timeouts K C} {w w₁ w' : W} {fired : List (K × C)} (a : K × C) (d : Dict K C)
        → lookup x s.timeouts ≡ some (a ∷ d)
        → call (last_entry a d).1 (popped x (last_entry a d).0 (a ∷ d) s) w ≡ some (s₁, w₁)
        → Fires x s₁ w₁ fired s' w'
        → Fires x s w (last_entry a d ∷ fired) s' w'

  abbrev pub fired_key : K → List (K × C) → Bool
  fired_key k [] = false
  fired_key k ((j, c) ∷ fired) = if e.beq j k then true else fired_key k fired

  -- A callback that takes another key's timeout off the expiration that fires.
  abbrev pub TakesOff : ℕ → K → Type 0
  TakesOff x k =
      (c : C) × (s : Timeouts K C) × (w : W) × (r : Timeouts K C × W) × (call c s w ≡ some r)
      × (has k (bucket x s) ≡ true)
      × (has k (bucket x r.0) ≡ false)

  bucket-popped :
      (x y : ℕ) (k : K) (b : Dict K C) (s : Timeouts K C)
      → bucket y (popped x k b s) ≡ (if x == y then remove k b else bucket y s)
  unfolding bucket
  bucket-popped x y k b s = ground (arith, lookup-put {K = ℕ} x y (remove k b) s.timeouts)

  popped-IsConsistent :
      (x : ℕ) (k : K) (b : Dict K C) (s : Timeouts K C)
      → IsConsistent s
      → lookup x s.timeouts ≡ some b
      → has k b ≡ true
      → IsConsistent (popped x k b s)
  popped-IsConsistent x k b s v p h = record {
    agree = λ j y. ground (
      arith,
      bucket-popped x y k b s,
      lookup-remove k j b,
      handlers j,
      v.agree j y,
      v.agree k y,
      v.agree k x,
      v.agree j x,
      at_x,
      e.beq_iff k j,
      h,
    );
  }
    where
      at_x : bucket x s ≡ b
      at_x = unfold bucket in ground (arith, p)

      handlers :
          (j : K)
          → lookup j (popped x k b s).handlers_timeouts
            ≡ (if e.beq k j then none else lookup j s.handlers_timeouts)
      handlers j = lookup-remove k j s.handlers_timeouts

  fire_last_lem :
      (x : ℕ) (a : K × C) (d : Dict K C) (s : Timeouts K C) (w : W)
      → IsConsistent s
      → lookup x s.timeouts ≡ some (a ∷ d)
      → IsQuiet x
      → (r : Timeouts K C × W) × (fire_last call x a d s w ≡ some r)
        × (call (last_entry a d).1 (popped x (last_entry a d).0 (a ∷ d) s) w ≡ some r)
        × IsConsistent r.0
        × (length (bucket x r.0) < length (a ∷ d))
        × (has x r.0.timeouts ≡ true)
  unfolding fire_last
  fire_last_lem x a d s w v p quiet =
      let k = (last_entry a d).0 in
      let s₁ = popped x k (a ∷ d) s in
      let h : has k (a ∷ d) ≡ true = has-last_entry a d in
      let (r, q, l) = quiet (last_entry a d).1 s₁ w (popped-IsConsistent x k (a ∷ d) s v p h) in
      let at_x : bucket x s ≡ a ∷ d = unfold bucket in ground (arith, p) in
      let waits : has k s.handlers_timeouts ≡ true = ground (arith, v.agree k x, at_x, h) in
      (
        r,
        ground (arith, waits, q),
        q,
        l.consistent,
        ground (arith, l.no_more, bucket-popped x x k (a ∷ d) s, length-remove_lt k (a ∷ d) h),
        ground (arith, l.kept, lookup-put {K = ℕ} x x (remove k (a ∷ d)) s.timeouts),
      )

  -- With this fuel the loop ends, and leaves nothing to fire at `x`.
  abbrev Empties : ℕ → ℕ → Timeouts K C → W → Type 0
  Empties fuel x s w =
      (r : Timeouts K C × W) × (fire_all call fuel x s w ≡ done r)
      × IsConsistent r.0
      × (bucket x r.0 ≡ [])
      × ((fired : List (K × C)) × Fires x s w fired r.0 r.1)

  fire_all-suc :
      (fuel x : ℕ) (s : Timeouts K C) (w : W)
      → length (bucket x s) < suc fuel
      → IsConsistent s
      → has x s.timeouts ≡ true
      → IsQuiet x
      → ((s' : Timeouts K C) (w' : W)
          → length (bucket x s') < fuel
          → IsConsistent s'
          → has x s'.timeouts ≡ true
          → Empties fuel x s' w')
      → Empties (suc fuel) x s w
  unfolding fire_all
  fire_all-suc fuel x s w h v t quiet again = go (lookup x s.timeouts) refl
    where
      go : (o : Option (Dict K C)) → lookup x s.timeouts ≡ o → Empties (suc fuel) x s w
      go none p = absurd (ground (arith, p, t))
      go (some []) p =
          let none_due : bucket x s ≡ [] = unfold bucket in ground (arith, p) in
          ((s, w), rw (p, fire_all), v, none_due, ([], no_more_due none_due))
      go (some (a ∷ d)) p =
          let (r, q, c, v', lt, t') = fire_last_lem x a d s w v p quiet in
          let at_x : bucket x s ≡ a ∷ d = unfold bucket in ground (arith, p) in
          let (r', q', v'', none_left, (fired, f)) =
            again r.0 r.1 (ground (arith, lt, at_x, h)) v' t' in
          (
            r',
            rw (p, fire_all) (rw (q, fire_all) q'),
            v'',
            none_left,
            (last_entry a d ∷ fired, fires a d p c f),
          )

  fire_all_lem :
      (fuel x : ℕ) (s : Timeouts K C) (w : W)
      → length (bucket x s) < fuel
      → IsConsistent s
      → has x s.timeouts ≡ true
      → IsQuiet x
      → Empties fuel x s w
  fire_all_lem zero x s w h v t quiet = elim h [ ]
  fire_all_lem (suc fuel) x s w h v t quiet =
      fire_all-suc fuel x s w h v t quiet
        (λ s' w' h' v' t'. fire_all_lem fuel x s' w' h' v' t' quiet)

  -- A key that is due is fired, unless a callback takes it off.
  Fires-key :
      (x : ℕ) (k : K) {s s' : Timeouts K C} {w w' : W} {fired : List (K × C)}
      → Fires x s w fired s' w'
      → has k (bucket x s) ≡ true
      → (fired_key k fired ≡ true) ⊎ TakesOff x k
  Fires-key x k (no_more_due n) h = absurd (ground (arith, n, h, lookup-nil {V = C} k))
  Fires-key x k {s} {w = w} (fires {s₁ = s₁} {w₁ = w₁} {fired = fired₀} a d p c f) h =
      go (e.beq (last_entry a d).0 k) refl (has k (bucket x s₁)) refl (Fires-key x k f)
    where
      s₀ : Timeouts K C
      s₀ = popped x (last_entry a d).0 (a ∷ d) s

      still : e.beq (last_entry a d).0 k ≡ false → has k (bucket x s₀) ≡ true
      still m =
          unfold bucket in
          ground (
            arith,
            p,
            m,
            h,
            bucket-popped x x (last_entry a d).0 (a ∷ d) s,
            lookup-remove (last_entry a d).0 k (a ∷ d),
          )

      go :
          (b : Bool)
          → e.beq (last_entry a d).0 k ≡ b
          → (t : Bool) → has k (bucket x s₁) ≡ t
          → (has k (bucket x s₁) ≡ true → (fired_key k fired₀ ≡ true) ⊎ TakesOff x k)
          → (fired_key k (last_entry a d ∷ fired₀) ≡ true) ⊎ TakesOff x k
      go true m t n ih = inl (rw m refl)
      go false m true n ih = elim (ih n) [ inl g ↦ inl (rw m g) | inr g ↦ inr g ]
      go false m false n ih = inr ((last_entry a d).1, s₀, w, (s₁, w₁), c, still m, n)

  -- Where the callbacks do not raise, keep the two dictionaries in agreement and file nothing anew
  -- under the expiration that fires, `handle_event` ends normally: it has run a row of callbacks one after
  -- the other, with their effects, in which every key that was due stands, unless some callback takes it off
  -- that expiration. Then no key waits for that expiration, the dictionaries agree, and the timer is set to
  -- the earliest expiration that is left or before.
  pub handle_event_lem :
      (fuel x : ℕ) (s : Timeouts K C) (w : W)
      → IsConsistent s
      → min_expiration s.timeouts ≡ some x
      → length (bucket x s) < fuel
      → IsQuiet x
      → (s₁ : Timeouts K C) × (w' : W) × (fired : List (K × C)) × Fires x s w fired s₁ w'
        × (handle_event call fuel s w ≡ done (rearm x s₁, w'))
        × ((k : K) → has k (bucket x s) ≡ true → (fired_key k fired ≡ true) ⊎ TakesOff x k)
        × IsConsistent (rearm x s₁)
        × IsArmed (rearm x s₁)
        × ((k : K) → lookup k (rearm x s₁).handlers_timeouts ≢ some x)
  unfolding handle_event
  handle_event_lem fuel x s w v p h quiet =
      let (here, least) = min_expiration_lem s.timeouts x p in
      let (r, q, v', none_left, (fired, f)) = fire_all_lem fuel x s w h v here quiet in
      let v'' = rearm-IsConsistent x r.0 v' none_left in
      (
        r.0,
        r.1,
        fired,
        f,
        rw (p, handle_event) (rw (q, handle_event)),
        λ k g. Fires-key x k f g,
        v'',
        rearm-IsArmed x r.0,
        λ k g. ground (arith, v''.agree k x, bucket-rearm x r.0, lookup-nil {V = C} k, g),
      )
