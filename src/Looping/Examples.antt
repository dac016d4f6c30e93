-- ===== src/Looping/Examples.antt =====
-- A handler that raises, and one that is not known.
use savate.Prelude.{List, [], false, none, refl, some, ℕ, ◌+◌, ◌==◌, ◌∷◌, ◌≡◌}
use savate.Looping.{
  IoLoop, get_mask, init, inject_event, poller_modify, poller_register, poller_unregister, register,
  unregister,
}
use savate.Looping.Watching.{Call, call, injecting, registering, run, unregistering}
use savate.Looping.Once.{
  Handlers, calling, close_handler, descriptor, dispatch, ended, merge_eventlists, once, serve,
  take_out,
}
use savate.Looping.Once.Isolation.{IsServed, once-IsServed}
use savate.Prelude.{nat_eq}
use savate.Dict.{lookup, put, remove}

-- A request at descriptor 4 becomes a client, which registers itself again and goes; then a closed one.
abbrev script : List Call
script =
    registering 4 1 1
    ∷ registering 4 2 4
    ∷ injecting 4 4
    ∷ unregistering (some 4)
    ∷ unregistering none
    ∷ []

-- Handler 1 registers another one and raises; closing it is counted.
abbrev program : Handlers
program = record {
  World = ℕ;
  handle_event = λ handler eventmask w. record {
    calls = registering 5 2 1 ∷ [];
    raises = handler == 1;
    world = w;
  };
  close = λ handler w. record { calls = []; raises = false; world = w + 1 };
  fileno = λ handler w. descriptor 4;
}

abbrev one_handler : IoLoop
one_handler = record { poller = (4, 1) ∷ []; handlers = (4, 1) ∷ []; injected_events = (9, 4) ∷ [] }

run-script : run script init ≡ some init
unfolding run call register unregister poller_register poller_modify poller_unregister inject_event
    lookup put remove
run-script = refl

once-IsServed_example : IsServed program (once program ((4, 1) ∷ []) 0 one_handler)
once-IsServed_example = once-IsServed program ((4, 1) ∷ []) 0 one_handler (λ fd. refl)

once-raises :
    once program ((4, 1) ∷ []) 0 one_handler
    ≡ ended 1 (record { poller = (5, 1) ∷ []; handlers = (5, 2) ∷ []; injected_events = [] })
unfolding once dispatch merge_eventlists serve take_out close_handler calling run call register
    unregister poller_register poller_modify poller_unregister lookup put remove get_mask
once-raises = refl
