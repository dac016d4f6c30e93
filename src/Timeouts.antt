-- ===== src/Timeouts.antt =====
-- savate/timeouts.py: one timer for many timeouts. `timeouts` files callbacks by expiration and
-- key, `handlers_timeouts` the expiration by key, and `armed` is what `timer.settime` was given
-- last. Expirations are numbers of clock ticks; keys are the objects used as dictionary keys.
pub mod Consistency
pub mod Arming
pub mod Runs
pub mod Firing
pub mod Activity
mod Examples
use savate.Prelude.{
  Bool, Eq, List, Option, [], if◌then◌else◌, ltb, nat_eq, none, some, suc, true, zero, ℕ, ◌∷◌,
}
use savate.Dict.{Dict, has, lookup, put, remove}

pub record Timeouts (K C : Type 0) : Type 0 where
  pub timeouts : Dict ℕ (Dict K C)
  pub handlers_timeouts : Dict K ℕ
  pub armed : Option ℕ

-- `min(self.timeouts)` over the keys of a non-empty dict.
pub min_of : {V : Type 0} → ℕ → Dict ℕ V → ℕ
min_of m [] = m
min_of m ((e, v) ∷ d) = min_of (if ltb e m then e else m) d

-- `min_expiration`; `none` is the ValueError of `min` on an empty dict.
pub min_expiration : {V : Type 0} → Dict ℕ V → Option ℕ
unfolding min_of
min_expiration [] = none
min_expiration ((e, v) ∷ d) = some (min_of e d)

-- `(not self.timeouts) or (expiration < self.min_expiration)`
pub is_earlier : {V : Type 0} → ℕ → Dict ℕ V → Bool
unfolding min_expiration
is_earlier expiration d = elim (min_expiration d) [ none ↦ true | some m ↦ ltb expiration m ]

module _ {K C : Type 0} ⦃e : Eq K⦄ where
  -- `self.timeouts.get(expiration, {})`
  pub bucket : ℕ → Timeouts K C → Dict K C
  bucket x s = elim (lookup x s.timeouts) [ none ↦ [] | some b ↦ b ]

  -- `__init__`
  pub init : Timeouts K C
  init = record { timeouts = []; handlers_timeouts = []; armed = none }

  arm : ℕ → Timeouts K C → Timeouts K C
  unfolding is_earlier
  arm expiration s =
      if is_earlier expiration s.timeouts then record s { armed = some expiration } else s

  -- `self.timeouts[old_expiration].pop(key_index)`; `none` is a KeyError of either step.
  drop_old : K → Timeouts K C → Option (Timeouts K C)
  drop_old k s = elim (lookup k s.handlers_timeouts) [
    | none ↦ some s
    | some old ↦ elim (lookup old s.timeouts) [
      | none ↦ none
      | some b ↦
          if has k b then some (record s { timeouts = put old (remove k b) s.timeouts }) else none
    ]
  ]

  -- The two writes at the end of `reset_timeout`, `setdefault` included.
  file : K → ℕ → C → Timeouts K C → Timeouts K C
  unfolding bucket
  file k expiration callback s = record s {
    handlers_timeouts = put k expiration s.handlers_timeouts;
    timeouts = put expiration (put k callback (bucket expiration s)) s.timeouts;
  }

  pub reset_timeout : K → ℕ → C → Timeouts K C → Option (Timeouts K C)
  reset_timeout k expiration callback s = elim (drop_old k (arm expiration s)) [
    | none ↦ none
    | some s' ↦ some (file k expiration callback s')
  ]

  -- `self.timeouts.get(expiration, {}).pop(key_index, None)` leaves no new entry where there was none.
  pub remove_timeout : K → Timeouts K C → Timeouts K C
  remove_timeout k s = elim (lookup k s.handlers_timeouts) [
    | none ↦ s
    | some x ↦ elim (lookup x s.timeouts) [
      | none ↦ record s { handlers_timeouts = remove k s.handlers_timeouts }
      | some b ↦ record s {
        handlers_timeouts = remove k s.handlers_timeouts;
        timeouts = put x (remove k b) s.timeouts;
      }
    ]
  ]

  -- `del self.timeouts[expiration]`, and the timer set to the earliest of the others.
  pub rearm : ℕ → Timeouts K C → Timeouts K C
  rearm x s =
      let left = remove x s.timeouts in
      elim (min_expiration left) [
        | none ↦ record s { timeouts = left }
        | some m ↦ record s { timeouts = left; armed = some m }
      ]

-- How `handle_event` ends: normally, with an exception out of the callbacks or of the dictionaries,
-- or with the model's fuel used up.
pub data Outcome (A : Type 0) : Type 0 where
  done : A → Outcome A
  raised : Outcome A
  out_of_fuel : Outcome A

-- `dict.popitem()` on `a ∷ d`: the entry inserted last.
pub last_entry {ℓ} : {A : Type ℓ} → A → List A → A
last_entry a [] = a
last_entry a (b ∷ d) = last_entry b d

-- `W` is the rest of the server, which the callbacks act on; `call` runs a callback, and its `none`
-- is an exception.
module _ {K C W : Type 0} ⦃e : Eq K⦄ (call : C → Timeouts K C → W → Option (Timeouts K C × W)) where
  -- One round of the loop on a bucket that is not empty: `popitem`, `handlers_timeouts.pop`, the call.
  pub fire_last : ℕ → K × C → Dict K C → Timeouts K C → W → Option (Timeouts K C × W)
  fire_last x entry rest s w =
      let (k, c) = last_entry entry rest in
      let s' : Timeouts K C = record s {
        timeouts = put x (remove k (entry ∷ rest)) s.timeouts;
        handlers_timeouts = remove k s.handlers_timeouts;
      } in
      if has k s.handlers_timeouts then call c s' w else none

  -- `while self.timeouts[expiration]: …`
  pub fire_all : ℕ → ℕ → Timeouts K C → W → Outcome (Timeouts K C × W)
  fire_all zero x s w = out_of_fuel
  fire_all (suc fuel) x s w = elim (lookup x s.timeouts) [
    | none ↦ raised
    | some [] ↦ done (s, w)
    | some (entry ∷ rest) ↦ elim (fire_last x entry rest s w) [
      | none ↦ raised
      | some (s', w') ↦ fire_all fuel x s' w'
    ]
  ]

  -- `handle_event` on POLLIN; `min` raises ValueError where no timeout was ever filed.
  pub handle_event : ℕ → Timeouts K C → W → Outcome (Timeouts K C × W)
  handle_event fuel s w = elim (min_expiration s.timeouts) [
    | none ↦ raised
    | some x ↦ elim (fire_all fuel x s w) [ done (s', w') ↦ done (rearm x s', w') | other ↦ other ]
  ]
