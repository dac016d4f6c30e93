-- ===== src/Timeouts/Runs.antt =====
-- Sequences of `reset_timeout` and `remove_timeout` calls.
use savate.Prelude.{
  Eq, List, Option, [], ap, arith, if◌then◌else◌, none, refl, some, sym, true, ℕ, ◌==◌, ◌∙◌, ◌∷◌,
  ◌≡◌,
}
use savate.Dict.{has, lookup}
use savate.Dict.Laws.{lookup-remove}
use savate.Timeouts.{Timeouts, bucket, init, remove_timeout, reset_timeout}
use savate.Timeouts.Consistency.{
  IsConsistent, bucket-remove_timeout, handlers-remove_timeout, init-IsConsistent,
  remove_timeout-IsConsistent, reset_timeout-IsReset,
}
use savate.Timeouts.Arming.{
  ArmedBy, IsArmed, init-IsArmed, remove_timeout-IsArmed, reset_timeout-IsArmed,
}
use savate.Prelude.{nat_eq}

pub data Op (K C : Type 0) : Type 0 where
  reset : K → ℕ → C → Op K C
  cancel : K → Op K C

module _ {C : Type 0} where
  -- What the later calls leave, or else the earlier.
  abbrev pub or_before : Option (Option (ℕ × C)) → Option (Option (ℕ × C)) → Option (Option (ℕ × C))
  or_before none before = before
  or_before (some later) before = some later

  -- The expiration of a key, and its callback among those of `y`.
  abbrev pub expiration_of : Option (Option (ℕ × C)) → Option ℕ → Option ℕ
  expiration_of none before = before
  expiration_of (some none) before = none
  expiration_of (some (some (x, c))) before = some x

  abbrev pub callback_of : ℕ → Option (Option (ℕ × C)) → Option C → Option C
  callback_of y none before = before
  callback_of y (some none) before = none
  callback_of y (some (some (x, c))) before = if x == y then some c else none

  expiration_of-or_before :
      (l m : Option (Option (ℕ × C))) (b : Option ℕ)
      → expiration_of (or_before l m) b ≡ expiration_of l (expiration_of m b)
  expiration_of-or_before none m b = refl
  expiration_of-or_before (some none) m b = refl
  expiration_of-or_before (some (some (x, c))) m b = refl

  callback_of-or_before :
      (y : ℕ) (l m : Option (Option (ℕ × C))) (b : Option C)
      → callback_of y (or_before l m) b ≡ callback_of y l (callback_of y m b)
  callback_of-or_before y none m b = refl
  callback_of-or_before y (some none) m b = refl
  callback_of-or_before y (some (some (x, c))) m b = refl

module _ {K C : Type 0} ⦃e : Eq K⦄ where
  -- `none` is a KeyError out of one of the calls.
  unfoldable pub run : List (Op K C) → Timeouts K C → Option (Timeouts K C)
  run [] s = some s
  run (reset k x c ∷ ops) s = elim (reset_timeout k x c s) [ none ↦ none | some s' ↦ run ops s' ]
  run (cancel k ∷ ops) s = run ops (remove_timeout k s)

  -- What holds between two events of the server's loop.
  pub record IsSound (s : Timeouts K C) : Type 0 where
    pub consistent : IsConsistent s
    pub in_time : IsArmed s

  pub init-IsSound : IsSound init
  init-IsSound = record { consistent = init-IsConsistent; in_time = init-IsArmed }

  -- What the last call that is about a key leaves: no such call, a cancellation, or an expiration with its
  -- callback.
  abbrev effect : K → Op K C → Option (Option (ℕ × C))
  effect k (reset j x c) = if e.beq j k then some (some (x, c)) else none
  effect k (cancel j) = if e.beq j k then some none else none

  abbrev pub last_call : List (Op K C) → K → Option (Option (ℕ × C))
  last_call [] k = none
  last_call (op ∷ ops) k = or_before (last_call ops k) (effect k op)

  -- What a run of calls makes of the two dictionaries.
  record Follows (ops : List (Op K C)) (s s' : Timeouts K C) : Type 0 where
    expirations :
        (k : K)
        → lookup k s'.handlers_timeouts
          ≡ expiration_of (last_call ops k) (lookup k s.handlers_timeouts)
    callbacks :
        (k : K) (y : ℕ)
        → lookup k (bucket y s') ≡ callback_of y (last_call ops k) (lookup k (bucket y s))

  run-Follows :
      (ops : List (Op K C)) (s : Timeouts K C)
      → IsSound s
      → (s' : Timeouts K C) × (run ops s ≡ some s') × IsSound s' × Follows ops s s'
  unfolding run
  run-Follows [] s v = (s, refl, v, record { expirations = λ k. refl; callbacks = λ k y. refl })
  run-Follows (reset j x c ∷ ops) s v =
      let (s₁, p, r, ok) = reset_timeout-IsReset j x c s v.consistent in
      let w : IsSound s₁ = record {
        consistent = ok;
        in_time = reset_timeout-IsArmed j x c s s₁ v.in_time p;
      } in
      let (s₂, q, u, f) = run-Follows ops s₁ w in
      (
        s₂,
        rw (p, run) q,
        u,
        record {
          expirations = λ k.
              f.expirations k
              ∙ ap (expiration_of (last_call ops k)) (ground (arith, r.expirations k))
              ∙ sym (
                  expiration_of-or_before (last_call ops k) (effect k (reset j x c))
                    (lookup k s.handlers_timeouts));
          callbacks = λ k y.
              f.callbacks k y
              ∙ ap (callback_of y (last_call ops k)) (ground (arith, r.callbacks k y))
              ∙ sym (
                  callback_of-or_before y (last_call ops k) (effect k (reset j x c))
                    (lookup k (bucket y s)));
        },
      )
  run-Follows (cancel j ∷ ops) s v =
      let s₁ = remove_timeout j s in
      let (s₂, q, u, f) = run-Follows ops s₁ (record {
        consistent = remove_timeout-IsConsistent j s v.consistent;
        in_time = remove_timeout-IsArmed j s v.in_time;
      }) in
      (
        s₂,
        q,
        u,
        record {
          expirations = λ k.
              f.expirations k
              ∙ ap (expiration_of (last_call ops k)) (ground (arith, handlers-remove_timeout j k s))
              ∙ sym (
                  expiration_of-or_before (last_call ops k) (effect k (cancel j))
                    (lookup k s.handlers_timeouts));
          callbacks = λ k y.
              f.callbacks k y
              ∙ ap (callback_of y (last_call ops k)) (
                  ground (
                    arith,
                    bucket-remove_timeout j y s,
                    lookup-remove j k (bucket y s),
                    v.consistent.agree j y,
                    e.beq_iff j k,
                  ))
              ∙ sym (
                  callback_of-or_before y (last_call ops k) (effect k (cancel j))
                    (lookup k (bucket y s)));
        },
      )

  -- A key that waits is there by the timer.
  IsSound-in_time :
      (s : Timeouts K C)
      → IsSound s
      → (k : K) (x : ℕ) → lookup k s.handlers_timeouts ≡ some x
      → ArmedBy s.armed x
  IsSound-in_time s v k x p =
      let b : has k (bucket x s) ≡ true = ground (arith, v.consistent.agree k x, p) in
      v.in_time.due x (unfold bucket lookup in ground (arith, b))

  -- Whatever the calls and their order, on timeouts that start empty none of them raises KeyError;
  -- afterwards a key waits exactly if the last call about it was a reset, for the expiration and with the
  -- callback of that reset and under no other expiration, and the timer is set to that expiration or an
  -- earlier one.
  pub run_waits :
      (ops : List (Op K C))
      → (s : Timeouts K C) × (run ops init ≡ some s)
        × ((k : K) → lookup k s.handlers_timeouts ≡ expiration_of (last_call ops k) none)
        × ((k : K) (y : ℕ) → lookup k (bucket y s) ≡ callback_of y (last_call ops k) none)
        × ((k : K) (x : ℕ) → lookup k s.handlers_timeouts ≡ some x → ArmedBy s.armed x)
  unfolding init bucket lookup
  run_waits ops =
      let (s, p, v, f) = run-Follows ops init init-IsSound in
      (s, p, f.expirations, f.callbacks, IsSound-in_time s v)
