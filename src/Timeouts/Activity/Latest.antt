-- ===== src/Timeouts/Activity/Latest.antt =====
-- savate/timeouts.py: the timeout of a socket after its activity and departures.
use savate.Timeouts.Activity.{
  inactivity_timeout, remove_inactivity_timeout, remove_io_timeout, reset_inactivity_timeout,
  reset_io_timeout,
}
use savate.Timeouts.{Timeouts, bucket, remove_timeout}
use savate.Timeouts.Consistency.{
  IsConsistent, bucket-remove_timeout, remove_timeout-IsConsistent, reset_timeout-IsReset,
}
use savate.Prelude.{
  Eq, List, Option, [], arith, if◌then◌else◌, none, refl, some, ℕ, ◌+◌, ◌==◌, ◌∙◌, ◌∷◌, ◌≡◌,
}
use savate.Dict.{lookup}
use savate.Dict.Laws.{lookup-remove}
use savate.Prelude.{nat_eq}

-- What the server tells the timeouts of a handler: it has been active at a time, or it goes.
pub data Event (H : Type 0) : Type 0 where
  active : ℕ → H → Event H
  gone : H → Event H

-- What the last event that is about a socket leaves.
pub data Last (H : Type 0) : Type 0 where
  no_event : Last H
  off : Last H
  on : ℕ → H → Last H

module _ {H K C : Type 0} ⦃e : Eq K⦄ (sock : H → K) (fired : H → C) where
  -- `none` is a KeyError.
  pub run_events : List (Event H) → Timeouts K C → Option (Timeouts K C)
  run_events [] s = some s
  run_events (active now h ∷ es) s = elim (reset_inactivity_timeout sock fired now h s) [
    | none ↦ none
    | some s' ↦ run_events es s'
  ]
  run_events (gone h ∷ es) s = run_events es (remove_inactivity_timeout sock fired h s)

  abbrev effect : K → Event H → Last H
  effect k (active now h) = if e.beq (sock h) k then on now h else no_event
  effect k (gone h) = if e.beq (sock h) k then off else no_event

  -- What the later events leave, or else this one.
  abbrev or_before : Last H → Last H → Last H
  or_before no_event before = before
  or_before off before = off
  or_before (on now h) before = on now h

  abbrev pub latest : List (Event H) → K → Last H
  latest [] k = no_event
  latest (a ∷ es) k = or_before (latest es k) (effect k a)

  -- The callback that is due at `x` then, if one was before.
  abbrev pub due_at : ℕ → Option C → Last H → Option C
  due_at x before no_event = before
  due_at x before off = none
  due_at x before (on now h) = if now + inactivity_timeout == x then some (fired h) else none

  due_at-effect :
      (x : ℕ) (b1 b : Option C) (l m : Last H)
      → b1 ≡ due_at x b m
      → due_at x b1 l ≡ due_at x b (or_before l m)
  due_at-effect x b1 b no_event m h = h
  due_at-effect x b1 b off m h = refl
  due_at-effect x b1 b (on now h1) m h = refl

  -- An activity alone.
  pub reset_inactivity_timeout-due :
      (now : ℕ) (h : H) (s : Timeouts K C)
      → IsConsistent s
      → (s' : Timeouts K C) × (reset_inactivity_timeout sock fired now h s ≡ some s')
        × ((k : K) (x : ℕ)
            → lookup k (bucket x s') ≡ (
                if e.beq (sock h) k
                then (if now + inactivity_timeout == x then some (fired h) else none)
                else lookup k (bucket x s)))
        × IsConsistent s'
  unfolding reset_inactivity_timeout reset_io_timeout
  reset_inactivity_timeout-due now h s v =
      let (s', p, r, w) = reset_timeout-IsReset (sock h) (now + inactivity_timeout) (fired h) s v in
      (s', p, r.callbacks, w)

  lookup-remove_timeout :
      (j k : K) (x : ℕ) (s : Timeouts K C)
      → IsConsistent s
      → lookup k (bucket x (remove_timeout j s))
        ≡ (if e.beq j k then none else lookup k (bucket x s))
  lookup-remove_timeout j k x s v = ground (
    arith,
    bucket-remove_timeout j x s,
    lookup-remove j k (bucket x s),
    v.agree j x,
    e.beq_iff j k,
  )

  -- Whatever handlers are active or go, at any times and in any order, from consistent timeouts: there is
  -- no KeyError, the timeouts are consistent, and a socket has exactly one timeout, 10 seconds after its
  -- last activity and closing the handler that had it, or none if that handler or another one of the
  -- socket went later. A key that no event is about keeps its timeouts.
  pub run_events-latest :
      (es : List (Event H)) (s : Timeouts K C)
      → IsConsistent s
      → (s' : Timeouts K C) × (run_events es s ≡ some s')
        × IsConsistent s'
        × ((k : K) (x : ℕ)
            → lookup k (bucket x s') ≡ due_at x (lookup k (bucket x s)) (latest es k))
  unfolding run_events remove_inactivity_timeout remove_io_timeout reset_inactivity_timeout
      reset_io_timeout
  run_events-latest [] s v = (s, refl, v, λ k x. refl)
  run_events-latest (active now h ∷ es) s v =
      let (s1, p, r, w) = reset_timeout-IsReset (sock h) (now + inactivity_timeout) (fired h) s v in
      let (s', q, w', same) = run_events-latest es s1 w in
      (
        s',
        rw (p, run_events) q,
        w',
        λ k x.
            same k x
            ∙ due_at-effect x (lookup k (bucket x s1)) (lookup k (bucket x s)) (latest es k)
                (effect k (active now h)) (ground (arith, r.callbacks k x)),
      )
  run_events-latest (gone h ∷ es) s v =
      let s1 = remove_timeout (sock h) s in
      let (s', q, w', same) = run_events-latest es s1 (remove_timeout-IsConsistent (sock h) s v) in
      (
        s',
        q,
        w',
        λ k x.
            same k x
            ∙ due_at-effect x (lookup k (bucket x s1)) (lookup k (bucket x s)) (latest es k)
                (effect k (gone h)) (ground (arith, lookup-remove_timeout (sock h) k x s v)),
      )
