-- ===== src/Timeouts/Examples.antt =====
-- Timeouts with numbers for keys and callbacks, and a world that counts the calls.
use savate.Prelude.{
  List, Option, [], arith, nat_eq, none, refl, some, true, ℕ, ◌%◌, ◌+◌, ◌∷◌, ◌≡◌, ◌≢◌, ◌⊎◌,
}
use savate.Dict.{has, lookup, put, remove}
use savate.Timeouts.{
  Timeouts, arm, bucket, done, drop_old, file, fire_all, fire_last, handle_event, init, last_entry,
  min_expiration, rearm, remove_timeout, reset_timeout,
}
use savate.Timeouts.Consistency.{IsConsistent, remove_timeout-IsConsistent}
use savate.Timeouts.Arming.{ArmedBy, IsArmed}
use savate.Timeouts.Runs.{Op, callback_of, cancel, expiration_of, last_call, reset, run, run_waits}
use savate.Timeouts.Activity.Latest.{
  Event, active, due_at, gone, latest, run_events, run_events-latest,
}
use savate.Timeouts.Firing.{Fires, IsQuiet, TakesOff, fired_key, handle_event_lem}

-- The key 1 is moved from 30 to 20, and the key 2 is cancelled.
abbrev script : List (Op ℕ ℕ)
script = reset 1 30 7 ∷ reset 2 10 8 ∷ reset 1 20 9 ∷ cancel 2 ∷ []

after_script : Timeouts ℕ ℕ
after_script = record {
  timeouts = (30, []) ∷ (10, []) ∷ (20, (1, 9) ∷ []) ∷ [];
  handlers_timeouts = (1, 20) ∷ [];
  armed = some 10;
}

run-script : run script init ≡ some after_script
unfolding run reset_timeout remove_timeout arm drop_old file init lookup put remove after_script
run-script = refl

-- A callback that files nothing and counts its calls.
abbrev count_call : ℕ → Timeouts ℕ ℕ → ℕ → Option (Timeouts ℕ ℕ × ℕ)
count_call c s w = some (s, w + 1)

count_call-IsQuiet : (x : ℕ) → IsQuiet count_call x
count_call-IsQuiet x c s w v =
    ((s, w + 1), refl, record { consistent = v; no_more = omega arith; kept = refl })

abbrev one_due : Timeouts ℕ ℕ
one_due = record {
  timeouts = (10, (4, 5) ∷ []) ∷ [];
  handlers_timeouts = (4, 10) ∷ [];
  armed = some 10;
}

one_due-IsConsistent : IsConsistent one_due
unfolding lookup bucket
one_due-IsConsistent = record { agree = λ k x. ground arith }

handle_event-one_due :
    handle_event count_call 5 one_due 0
    ≡ done (record { timeouts = []; handlers_timeouts = []; armed = some 10 }, 1)
unfolding handle_event fire_all fire_last rearm lookup put remove min_expiration last_entry
handle_event-one_due = refl

remove_timeout-IsConsistent_example : IsConsistent (remove_timeout 4 one_due)
remove_timeout-IsConsistent_example = remove_timeout-IsConsistent 4 one_due one_due-IsConsistent

run_waits_example :
    (s : Timeouts ℕ ℕ) × (run script init ≡ some s)
    × ((k : ℕ) → lookup k s.handlers_timeouts ≡ expiration_of (last_call script k) none)
    × ((k y : ℕ) → lookup k (bucket y s) ≡ callback_of y (last_call script k) none)
    × ((k x : ℕ) → lookup k s.handlers_timeouts ≡ some x → ArmedBy s.armed x)
run_waits_example = run_waits script

handle_event_lem_example :
    (s₁ : Timeouts ℕ ℕ) × (w' : ℕ) × (fired : List (ℕ × ℕ)) × Fires count_call 10 one_due 0 fired s₁
      w'
    × (handle_event count_call 2 one_due 0 ≡ done (rearm 10 s₁, w'))
    × ((k : ℕ)
        → has k (bucket 10 one_due) ≡ true
        → (fired_key count_call k fired ≡ true) ⊎ TakesOff count_call 10 k)
    × IsConsistent (rearm 10 s₁)
    × IsArmed (rearm 10 s₁)
    × ((k : ℕ) → lookup k (rearm 10 s₁).handlers_timeouts ≢ some 10)
unfolding min_expiration bucket lookup
handle_event_lem_example =
    handle_event_lem count_call 2 10 one_due 0 one_due-IsConsistent refl (omega arith)
      (count_call-IsQuiet 10)

-- Handlers 14 and 24 share the socket 4; the handler 31 has the socket 1.
abbrev sock : ℕ → ℕ
sock h = h % 10

abbrev events : List (Event ℕ)
events = active 3 14 ∷ active 5 31 ∷ active 7 24 ∷ gone 31 ∷ []

run_events-latest_example :
    (s' : Timeouts ℕ ℕ) × (run_events sock (λ h. h) events one_due ≡ some s')
    × IsConsistent s'
    × ((k x : ℕ)
        → lookup k (bucket x s')
          ≡ due_at sock (λ h. h) x (lookup k (bucket x one_due)) (latest sock (λ h. h) events k))
run_events-latest_example = run_events-latest sock (λ h. h) events one_due one_due-IsConsistent
