-- ===== src/Timeouts/Consistency.antt =====
-- savate/timeouts.py: the two dictionaries of the timeouts.
use savate.Prelude.{
  Bool, Eq, Option, arith, false, if◌then◌else◌, nat_eq, none, refl, some, ℕ, ◌==◌, ◌≡◌,
}
use savate.Dict.{Dict, has, lookup, put, remove}
use savate.Dict.Laws.{lookup-put, lookup-remove}
use savate.Timeouts.{Timeouts, arm, bucket, drop_old, file, init, remove_timeout, reset_timeout}

-- Whether a key is filed to expire at `x`, by `handlers_timeouts`.
abbrev pub expires_at : Option ℕ → ℕ → Bool
expires_at none x = false
expires_at (some y) x = y == x

module _ {K C : Type 0} ⦃e : Eq K⦄ where
  pub record IsConsistent (s : Timeouts K C) : Type 0 where
    pub agree : (k : K) (x : ℕ) → has k (bucket x s) ≡ expires_at (lookup k s.handlers_timeouts) x

  pub init-IsConsistent : IsConsistent init
  unfolding init bucket lookup
  init-IsConsistent = record { agree = λ k x. refl }

  bucket-file :
      (k : K) (x y : ℕ) (c : C) (s : Timeouts K C)
      → bucket y (file k x c s) ≡ (if x == y then put k c (bucket x s) else bucket y s)
  unfolding file bucket
  bucket-file k x y c s = ground (arith, lookup-put {K = ℕ} x y (put k c (bucket x s)) s.timeouts)

  bucket-put :
      (x y : ℕ) (b : Dict K C) (h : Dict K ℕ) (d : Dict ℕ (Dict K C)) (a : Option ℕ)
      → bucket y (record { timeouts = put x b d; handlers_timeouts = h; armed = a }) ≡ (
          if x == y
          then b
          else bucket y (record { timeouts = d; handlers_timeouts = h; armed = a }))
  unfolding bucket
  bucket-put x y b h d a = ground (arith, lookup-put {K = ℕ} x y b d)

  pub bucket-remove_timeout :
      (k : K) (y : ℕ) (s : Timeouts K C)
      → bucket y (remove_timeout k s) ≡ (
          if expires_at (lookup k s.handlers_timeouts) y then remove k (bucket y s) else bucket y s)
  unfolding remove_timeout bucket remove
  bucket-remove_timeout k y s = go (lookup k s.handlers_timeouts) refl
    where
      filed :
          (x : ℕ)
          → lookup k s.handlers_timeouts ≡ some x
          → (o : Option (Dict K C)) → lookup x s.timeouts ≡ o
          → bucket y (remove_timeout k s) ≡ (if x == y then remove k (bucket y s) else bucket y s)
      filed x p none q = ground (arith, p, q)
      filed x p (some b) q = ground (arith, p, q, lookup-put {K = ℕ} x y (remove k b) s.timeouts)

      go :
          (o : Option ℕ)
          → lookup k s.handlers_timeouts ≡ o
          → bucket y (remove_timeout k s)
            ≡ (if expires_at o y then remove k (bucket y s) else bucket y s)
      go none p = rw (p, remove_timeout)
      go (some x) p = filed x p (lookup x s.timeouts) refl

  pub handlers-remove_timeout :
      (k j : K) (s : Timeouts K C)
      → lookup j (remove_timeout k s).handlers_timeouts
        ≡ (if e.beq k j then none else lookup j s.handlers_timeouts)
  unfolding remove_timeout
  handlers-remove_timeout k j s =
      ground (arith, lookup-remove k j s.handlers_timeouts, e.beq_iff k j)

  -- Removing a timeout takes the key out of both dictionaries and leaves every other key.
  pub remove_timeout-IsConsistent :
      (k : K) (s : Timeouts K C) → IsConsistent s → IsConsistent (remove_timeout k s)
  remove_timeout-IsConsistent k s v = record {
    agree = λ j x. ground (
      arith,
      v.agree j x,
      v.agree k x,
      handlers-remove_timeout k j s,
      bucket-remove_timeout k x s,
      lookup-remove k j (bucket x s),
      e.beq_iff k j,
    );
  }

  -- A state with the expirations of `s`, in which `k` is in no bucket.
  record Dropped (k : K) (s s' : Timeouts K C) : Type 0 where
    same : s'.handlers_timeouts ≡ s.handlers_timeouts
    gone :
        (j : K) (y : ℕ)
        → lookup j (bucket y s') ≡ (if e.beq k j then none else lookup j (bucket y s))

  drop_old-Dropped :
      (k : K) (s : Timeouts K C)
      → IsConsistent s
      → (s' : Timeouts K C) × (drop_old k s ≡ some s') × Dropped k s s'
  unfolding drop_old
  drop_old-Dropped k s v = go (lookup k s.handlers_timeouts) refl
    where
      filed :
          (old : ℕ)
          → lookup k s.handlers_timeouts ≡ some old
          → (o : Option (Dict K C)) → lookup old s.timeouts ≡ o
          → (s' : Timeouts K C) × (drop_old k s ≡ some s') × Dropped k s s'
      filed old p none q = absurd (unfold bucket lookup in ground (arith, v.agree k old, p, q))
      filed old p (some b) q = (
        record s { timeouts = put old (remove k b) s.timeouts },
        unfold bucket in ground (arith, v.agree k old, p, q),
        record {
          same = refl;
          gone = λ j y.
              unfold bucket in
              ground (
                arith,
                p,
                q,
                lookup-put {K = ℕ} old y (remove k b) s.timeouts,
                lookup-remove k j b,
                v.agree k y,
                e.beq_iff k j,
              );
        },
      )

      go :
          (o : Option ℕ)
          → lookup k s.handlers_timeouts ≡ o
          → (s' : Timeouts K C) × (drop_old k s ≡ some s') × Dropped k s s'
      go none p = (
        s,
        rw (p, drop_old),
        record { same = refl; gone = λ j y. ground (arith, v.agree k y, p, e.beq_iff k j) },
      )
      go (some old) p = filed old p (lookup old s.timeouts) refl

  arm-IsConsistent : (x : ℕ) (s : Timeouts K C) → IsConsistent s → IsConsistent (arm x s)
  unfolding arm bucket
  arm-IsConsistent x s v = record { agree = λ k y. ground (arith, v.agree k y) }

  -- What `reset_timeout` makes of a state: the key is filed under its new expiration alone, and
  -- every other key is where it was.
  pub record IsReset (k : K) (x : ℕ) (c : C) (s s' : Timeouts K C) : Type 0 where
    pub expirations :
        (j : K)
        → lookup j s'.handlers_timeouts
          ≡ (if e.beq k j then some x else lookup j s.handlers_timeouts)
    pub callbacks :
        (j : K) (y : ℕ)
        → lookup j (bucket y s')
          ≡ (if e.beq k j then (if x == y then some c else none) else lookup j (bucket y s))

  bucket-arm : (x y : ℕ) (s : Timeouts K C) → bucket y (arm x s) ≡ bucket y s
  unfolding arm bucket
  bucket-arm x y s = ground arith

  handlers-arm : (x : ℕ) (s : Timeouts K C) → (arm x s).handlers_timeouts ≡ s.handlers_timeouts
  unfolding arm
  handlers-arm x s = ground arith

  file-IsReset :
      (k : K) (x : ℕ) (c : C) (s s' : Timeouts K C)
      → Dropped k (arm x s) s'
      → IsReset k x c s (file k x c s')
  file-IsReset k x c s s' d = record {
    expirations = λ j.
        rw (← handlers-arm x s, ← d.same)
          (unfold file in ground (arith, lookup-put k j x s'.handlers_timeouts));
    callbacks = λ j y. ground (
      arith,
      bucket-file k x y c s',
      lookup-put k j c (bucket x s'),
      d.gone j y,
      d.gone j x,
      bucket-arm x y s,
      bucket-arm x x s,
      e.beq_iff k j,
    );
  }

  IsReset-IsConsistent :
      (k : K) (x : ℕ) (c : C) (s s' : Timeouts K C)
      → IsConsistent s
      → IsReset k x c s s'
      → IsConsistent s'
  IsReset-IsConsistent k x c s s' v r = record {
    agree = λ j y. ground (arith, v.agree j y, r.expirations j, r.callbacks j y);
  }

  -- On consistent timeouts `reset_timeout` raises no KeyError: the key is then filed under its new
  -- expiration and callback, under no other expiration, every other key is where it was, and the
  -- two dictionaries still agree.
  pub reset_timeout-IsReset :
      (k : K) (x : ℕ) (c : C) (s : Timeouts K C)
      → IsConsistent s
      → (s' : Timeouts K C) × (reset_timeout k x c s ≡ some s')
        × IsReset k x c s s'
        × IsConsistent s'
  unfolding reset_timeout
  reset_timeout-IsReset k x c s v =
      let (s', p, d) = drop_old-Dropped k (arm x s) (arm-IsConsistent x s v) in
      let r = file-IsReset k x c s s' d in
      (file k x c s', rw (p, reset_timeout), r, IsReset-IsConsistent k x c s (file k x c s') v r)
