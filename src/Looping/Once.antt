-- ===== src/Looping/Once.antt =====
-- savate/looping.py: IOLoop.once, what handlers do being a parameter. Time is left out. The kernel's
-- removal of a closed descriptor from its epoll is not modelled: the poller keeps what is not unregistered,
-- and the handlers unregister before they close.
pub mod Isolation
use savate.Prelude.{Bool, List, [], if◌then◌else◌, none, some, ℕ, ◌∷◌}
use savate.Dict.{Dict, lookup, put, remove}
use savate.Looping.{IoLoop, get_mask, unregister}
use savate.Looping.Watching.{Call, run}
use savate.Prelude.{nat_eq}
use Prim.Native.Nat.{bit_or}

-- `popitem` takes the event that was injected last first.
unfoldable pub merge_eventlists : Dict ℕ ℕ → Dict ℕ ℕ → Dict ℕ ℕ
merge_eventlists events_list [] = events_list
merge_eventlists events_list ((fd, eventmask) ∷ injected) =
    let merged = merge_eventlists events_list injected in
    put fd (bit_or (get_mask fd merged) eventmask) merged

-- What `handler.fileno()` gives: a descriptor, EBADF for a closed socket, or another exception once the
-- handler's socket is deleted.
pub data Fileno : Type 0 where
  descriptor : ℕ → Fileno
  ebadf deleted : Fileno

-- A method of a handler: its calls on the loop, and whether an exception ends it.
pub record Method (World : Type 0) : Type 0 where
  pub calls : List Call
  pub raises : Bool
  pub world : World

-- The program around the loop, with a state of its own.
pub record Handlers : Type 1 where
  pub World : Type 0
  pub handle_event : ℕ → ℕ → World → Method World
  pub close : ℕ → World → Method World
  pub fileno : ℕ → World → Fileno

module _ (handlers : Handlers) where
  open handlers use {World}

  -- How `once` ends: normally, with an exception that leaves it, or with an error of the poller inside a
  -- handler's call.
  pub data Ended : Type 0 where
    ended escaped : World → IoLoop → Ended
    poller_error : Ended

  -- A method's calls, and then what follows it without an exception or with one.
  unfoldable pub calling : Method World → IoLoop → (IoLoop → Ended) → (IoLoop → Ended) → Ended
  calling m l returns excepts = elim (run m.calls l) [
    | none ↦ poller_error
    | some l' ↦ if m.raises then excepts l' else returns l'
  ]

  -- `handler.close()` in the exception clause; `rest` goes on with the other events.
  unfoldable pub close_handler : ℕ → World → IoLoop → (World → IoLoop → Ended) → Ended
  close_handler handler w l rest =
      let m = handlers.close handler w in
      calling m l (λ l'. rest m.world l') (λ l'. escaped m.world l')

  -- The exception clause.
  unfoldable pub take_out : ℕ → World → IoLoop → (World → IoLoop → Ended) → Ended
  take_out handler w l rest = elim (handlers.fileno handler w) [
    | deleted ↦ escaped w l
    | ebadf ↦ close_handler handler w l rest
    | descriptor fd ↦ elim (unregister (some fd) l) [
      | none ↦ poller_error
      | some l' ↦ close_handler handler w l' rest
    ]
  ]

  -- The event of one descriptor. One without a handler leaves the poller, if it was there.
  unfoldable pub serve : ℕ → ℕ → World → IoLoop → (World → IoLoop → Ended) → Ended
  serve fd eventmask w l rest = elim (lookup fd l.handlers) [
    | none ↦ rest w (record l { poller = remove fd l.poller })
    | some handler ↦
        let m = handlers.handle_event handler eventmask w in
        calling m l (λ l'. rest m.world l') (λ l'. take_out handler m.world l' rest)
  ]

  unfoldable pub dispatch : Dict ℕ ℕ → World → IoLoop → Ended
  dispatch [] w l = ended w l
  dispatch ((fd, eventmask) ∷ events) w l = serve fd eventmask w l (λ w' l'. dispatch events w' l')

  -- `once` with what the poller gives it.
  unfoldable pub once : Dict ℕ ℕ → World → IoLoop → Ended
  once events_list w l =
      dispatch (merge_eventlists events_list l.injected_events) w
        (record l { injected_events = [] })
