-- ===== src/Timeouts/Arming.antt =====
-- savate/timeouts.py: the timer and the timeouts that are filed.
use savate.Prelude.{
  Eq, Option, [], arith, false, if◌then◌else◌, inl, inr, nat_eq, none, refl, some, true, ℕ, ◌==◌,
  ◌∷◌, ◌≡◌, ◌≤◌, ◌⊎◌,
}
use savate.Dict.Laws.{lookup-put}
use savate.Dict.{Dict, has, lookup, put, remove}
use savate.Timeouts.{
  Timeouts, arm, bucket, drop_old, file, init, is_earlier, min_expiration, min_of, remove_timeout,
  reset_timeout,
}

-- The timer is set, to `x` or before.
abbrev pub ArmedBy : Option ℕ → ℕ → Type 0
ArmedBy none x = ⊥
ArmedBy (some t) x = t ≤ x

min_of-le : {V : Type 0} (m : ℕ) (d : Dict ℕ V) → min_of m d ≤ m
unfolding min_of
min_of-le m [] = omega arith
min_of-le m ((y, v) ∷ d) = ground (arith, min_of-le y d, min_of-le m d)

min_of-least : {V : Type 0} (m : ℕ) (d : Dict ℕ V) (x : ℕ) → has x d ≡ true → min_of m d ≤ x
unfolding min_of lookup
min_of-least m [] x h = cc
min_of-least m ((y, v) ∷ d) x h =
    ground (arith, min_of-least y d x, min_of-least m d x, min_of-le y d, min_of-le m d)

min_of-has : {V : Type 0} (m : ℕ) (d : Dict ℕ V) → (min_of m d ≡ m) ⊎ (has (min_of m d) d ≡ true)
unfolding min_of lookup
min_of-has m [] = inl refl
min_of-has m ((y, v) ∷ d) = ground (arith, min_of-has y d, min_of-has m d)

-- `min` is one of the keys, and no key is smaller.
pub min_expiration_lem :
    {V : Type 0} (d : Dict ℕ V) (m : ℕ)
    → min_expiration d ≡ some m
    → (has m d ≡ true) × ((x : ℕ) → has x d ≡ true → m ≤ x)
unfolding min_expiration lookup
min_expiration_lem [] m p = cc
min_expiration_lem ((y, v) ∷ d) m p =
    (ground (arith, min_of-has y d), λ x h. ground (arith, min_of-least y d x, min_of-le y d))

pub min_expiration-none :
    {V : Type 0} (d : Dict ℕ V) (x : ℕ) → min_expiration d ≡ none → has x d ≡ false
unfolding min_expiration lookup
min_expiration-none [] x p = refl
min_expiration-none (h ∷ d) x p = cc

module _ {K C : Type 0} ⦃e : Eq K⦄ where
  pub record IsArmed (s : Timeouts K C) : Type 0 where
    pub due : (x : ℕ) → has x s.timeouts ≡ true → ArmedBy s.armed x

  pub init-IsArmed : IsArmed init
  unfolding init lookup
  init-IsArmed = record { due = λ x h. cc }

  -- Writing to a bucket that is there changes neither the set of expirations nor the timer.
  has-rewrite :
      (y x : ℕ) (b b' : Dict K C) (d : Dict ℕ (Dict K C))
      → lookup y d ≡ some b
      → has x (put y b' d) ≡ has x d
  has-rewrite y x b b' d p = ground (arith, lookup-put {K = ℕ} y x b' d)

  has-remove_timeout :
      (k : K) (x : ℕ) (s : Timeouts K C) → has x (remove_timeout k s).timeouts ≡ has x s.timeouts
  unfolding remove_timeout
  has-remove_timeout k x s = go (lookup k s.handlers_timeouts) refl
    where
      filed :
          (y : ℕ)
          → lookup k s.handlers_timeouts ≡ some y
          → (o : Option (Dict K C)) → lookup y s.timeouts ≡ o
          → has x (remove_timeout k s).timeouts ≡ has x s.timeouts
      filed y p none q = ground (arith, p, q)
      filed y p (some b) q = ground (arith, p, q, has-rewrite y x b (remove k b) s.timeouts q)

      go :
          (o : Option ℕ)
          → lookup k s.handlers_timeouts ≡ o
          → has x (remove_timeout k s).timeouts ≡ has x s.timeouts
      go none p = ground (arith, p)
      go (some y) p = filed y p (lookup y s.timeouts) refl

  armed-remove_timeout : (k : K) (s : Timeouts K C) → (remove_timeout k s).armed ≡ s.armed
  unfolding remove_timeout
  armed-remove_timeout k s = ground arith

  pub remove_timeout-IsArmed : (k : K) (s : Timeouts K C) → IsArmed s → IsArmed (remove_timeout k s)
  remove_timeout-IsArmed k s v = record {
    due = λ x h. rw armed-remove_timeout (v.due x (rw has-remove_timeout at h));
  }

  record DropsOne (s s' : Timeouts K C) : Type 0 where
    same_armed : s'.armed ≡ s.armed
    same_has : (x : ℕ) → has x s'.timeouts ≡ has x s.timeouts

  drop_old-DropsOne : (k : K) (s s' : Timeouts K C) → drop_old k s ≡ some s' → DropsOne s s'
  unfolding drop_old
  drop_old-DropsOne k s s' r = go (lookup k s.handlers_timeouts) refl
    where
      filed :
          (y : ℕ)
          → lookup k s.handlers_timeouts ≡ some y
          → (o : Option (Dict K C)) → lookup y s.timeouts ≡ o
          → DropsOne s s'
      filed y p none q = absurd (ground (arith, p, q))
      filed y p (some b) q = record {
        same_armed = ground (arith, p, q);
        same_has = λ x. ground (arith, p, q, has-rewrite y x b (remove k b) s.timeouts q);
      }

      go : (o : Option ℕ) → lookup k s.handlers_timeouts ≡ o → DropsOne s s'
      go none p = record { same_armed = ground (arith, p); same_has = λ x. ground (arith, p) }
      go (some y) p = filed y p (lookup y s.timeouts) refl

  arm-due :
      (x y : ℕ) (s : Timeouts K C)
      → IsArmed s
      → (has y s.timeouts ≡ true) ⊎ (x ≡ y)
      → ArmedBy (arm x s).armed y
  unfolding arm is_earlier
  arm-due x y s v h = go (min_expiration s.timeouts) refl h
    where
      go :
          (o : Option ℕ)
          → min_expiration s.timeouts ≡ o
          → (has y s.timeouts ≡ true) ⊎ (x ≡ y)
          → ArmedBy (arm x s).armed y
      go none p (inl k) = ground (arith, min_expiration-none s.timeouts y p)
      go none p (inr q) = ground (arith, p)
      go (some m) p q =
          let (here, least) = min_expiration_lem s.timeouts m p in
          ground (arith, p, v.due m here, least y, q)

  file-armed : (k : K) (x : ℕ) (c : C) (s : Timeouts K C) → (file k x c s).armed ≡ s.armed
  unfolding file
  file-armed k x c s = refl

  has-file :
      (k : K) (x y : ℕ) (c : C) (s : Timeouts K C)
      → has y (file k x c s).timeouts ≡ (if x == y then true else has y s.timeouts)
  unfolding file
  has-file k x y c s = ground (arith, lookup-put {K = ℕ} x y (put k c (bucket x s)) s.timeouts)

  arm-timeouts : (x : ℕ) (s : Timeouts K C) → (arm x s).timeouts ≡ s.timeouts
  unfolding arm
  arm-timeouts x s = ground arith

  pub reset_timeout-IsArmed :
      (k : K) (x : ℕ) (c : C) (s s' : Timeouts K C)
      → IsArmed s
      → reset_timeout k x c s ≡ some s'
      → IsArmed s'
  unfolding reset_timeout
  reset_timeout-IsArmed k x c s s' v r = go (drop_old k (arm x s)) refl
    where
      go : (o : Option (Timeouts K C)) → drop_old k (arm x s) ≡ o → IsArmed s'
      go none p = absurd (ground (arith, p))
      go (some s₁) p =
          let d : DropsOne (arm x s) s₁ = drop_old-DropsOne k (arm x s) s₁ p in
          let f : file k x c s₁ ≡ s' = ground (arith, p) in
          let due_at : (y : ℕ)
              → has y (file k x c s₁).timeouts ≡ true
              → ArmedBy (file k x c s₁).armed y =
            λ y h. rw (file-armed, d.same_armed) (arm-due x y s v (known y h)) in
          rw (← f) (record { due = due_at })
        where
          known :
              (y : ℕ) → has y (file k x c s₁).timeouts ≡ true → (has y s.timeouts ≡ true) ⊎ (x ≡ y)
          known y h = ground (
            arith,
            has-file k x y c s₁,
            (drop_old-DropsOne k (arm x s) s₁ p).same_has y,
            arm-timeouts x s,
            h,
          )
