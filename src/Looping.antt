-- ===== src/Looping.antt =====
-- savate/looping.py: what IOLoop watches. File descriptors and handlers are numbers.
pub mod Watching
pub mod Once
mod Examples
use savate.Prelude.{Option, [], if◌then◌else◌, nat_eq, none, some, ℕ}
use savate.Dict.{Dict, has, lookup, put, remove}
use Prim.Native.Nat.{bit_or}

-- The poller is the kernel's: the descriptors it watches, each with its mask.
pub record IoLoop : Type 0 where
  pub poller : Dict ℕ ℕ
  pub handlers : Dict ℕ ℕ
  pub injected_events : Dict ℕ ℕ

-- `__init__`
abbrev pub init : IoLoop
init = record { poller = []; handlers = []; injected_events = [] }

-- epoll_ctl(2), adding: EEXIST for a descriptor that is watched.
unfoldable pub poller_register : ℕ → ℕ → Dict ℕ ℕ → Option (Dict ℕ ℕ)
poller_register fd eventmask p = if has fd p then none else some (put fd eventmask p)

-- epoll_ctl(2), changing: ENOENT for a descriptor that is not watched.
unfoldable pub poller_modify : ℕ → ℕ → Dict ℕ ℕ → Option (Dict ℕ ℕ)
poller_modify fd eventmask p = if has fd p then some (put fd eventmask p) else none

-- epoll_ctl(2), removing.
unfoldable pub poller_unregister : ℕ → Dict ℕ ℕ → Option (Dict ℕ ℕ)
poller_unregister fd p = if has fd p then some (remove fd p) else none

unfoldable pub register : ℕ → ℕ → ℕ → IoLoop → Option IoLoop
register fd io_event_handler eventmask l =
    elim (if has fd l.handlers
      then poller_modify fd eventmask l.poller
      else poller_register fd eventmask l.poller) [
        | none ↦ none
        | some p ↦ some (record l { poller = p; handlers = put fd io_event_handler l.handlers })
      ]

-- `fileno` gives no descriptor for a closed socket, where it raises EBADF.
unfoldable pub unregister : Option ℕ → IoLoop → Option IoLoop
unregister none l = some l
unregister (some fd) l =
    if has fd l.handlers
    then (elim (poller_unregister fd l.poller) [
      | none ↦ none
      | some p ↦ some (record {
        poller = p;
        handlers = remove fd l.handlers;
        injected_events = remove fd l.injected_events;
      })
    ])
    else some l

unfoldable pub get_mask : ℕ → Dict ℕ ℕ → ℕ
get_mask fd d = elim (lookup fd d) [ none ↦ 0 | some m ↦ m ]

unfoldable pub inject_event : ℕ → ℕ → IoLoop → IoLoop
inject_event fd eventmask l = record l {
  injected_events = put fd (bit_or (get_mask fd l.injected_events) eventmask) l.injected_events;
}
