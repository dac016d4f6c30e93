-- ===== src/Looping/Watching.antt =====
-- savate/looping.py: the descriptors that the poller watches, and those with a handler.
use savate.Prelude.{List, Option, [], arith, nat_eq, none, refl, some, sym, ℕ, ◌∷◌, ◌≡◌}
use savate.Dict.{has, lookup, put, remove}
use savate.Dict.Laws.{lookup-put, lookup-remove}
use mathlib.Core.Path.{subst}
use savate.Looping.{
  IoLoop, inject_event, poller_modify, poller_register, poller_unregister, register, unregister,
}

abbrev pub Agrees : IoLoop → Type 0
Agrees l = (fd : ℕ) → has fd l.poller ≡ has fd l.handlers

-- One call on the loop from outside.
pub data Call : Type 0 where
  registering : ℕ → ℕ → ℕ → Call
  unregistering : Option ℕ → Call
  injecting : ℕ → ℕ → Call

unfoldable pub call : Call → IoLoop → Option IoLoop
call (registering fd h m) l = register fd h m l
call (unregistering o) l = unregister o l
call (injecting fd m) l = some (inject_event fd m l)

unfoldable pub run : List Call → IoLoop → Option IoLoop
run [] l = some l
run (c ∷ cs) l = elim (call c l) [ none ↦ none | some l' ↦ run cs l' ]

-- The loop after a call that succeeds.
Succeeds : Option IoLoop → Type 0
Succeeds none = ⊥
Succeeds (some l) = Agrees l

register-Agrees : (fd h m : ℕ) (l : IoLoop) → Agrees l → Succeeds (register fd h m l)
unfolding register poller_register poller_modify Succeeds
register-Agrees fd h m l a = go (lookup fd l.handlers) (lookup fd l.poller) refl refl
  where
    both : (j : ℕ) → has j (put fd m l.poller) ≡ has j (put fd h l.handlers)
    both j = ground (arith, lookup-put fd j h l.handlers, lookup-put fd j m l.poller, a j)

    go :
        (o p : Option ℕ)
        → lookup fd l.handlers ≡ o
        → lookup fd l.poller ≡ p
        → Succeeds (register fd h m l)
    go none none e f = rw (e, f, register) both
    go none (some x) e f = absurd (ground (arith, a fd, e, f))
    go (some x) none e f = absurd (ground (arith, a fd, e, f))
    go (some x) (some y) e f = rw (e, f, register) both

unregister-Agrees : (o : Option ℕ) (l : IoLoop) → Agrees l → Succeeds (unregister o l)
unfolding unregister poller_unregister Succeeds
unregister-Agrees none l a = a
unregister-Agrees (some fd) l a = go (lookup fd l.handlers) (lookup fd l.poller) refl refl
  where
    both : (j : ℕ) → has j (remove fd l.poller) ≡ has j (remove fd l.handlers)
    both j = ground (arith, lookup-remove fd j l.handlers, lookup-remove fd j l.poller, a j)

    left : IoLoop
    left = record {
      poller = remove fd l.poller;
      handlers = remove fd l.handlers;
      injected_events = remove fd l.injected_events;
    }

    known :
        (x y : ℕ)
        → lookup fd l.handlers ≡ some x
        → lookup fd l.poller ≡ some y
        → unregister (some fd) l ≡ some left
    known x y e f = ground (arith, e, f)

    go :
        (o p : Option ℕ)
        → lookup fd l.handlers ≡ o
        → lookup fd l.poller ≡ p
        → Succeeds (unregister (some fd) l)
    go none p e f = rw (e, Succeeds) a
    go (some x) none e f = absurd (ground (arith, a fd, e, f))
    go (some x) (some y) e f = subst (λ r. Succeeds r) (sym (known x y e f)) both

-- unregister succeeds, whatever it is given.
pub unregister-some :
    (o : Option ℕ) (l : IoLoop) → Agrees l → (l' : IoLoop) × (unregister o l ≡ some l') × Agrees l'
unregister-some o l a = go (unregister o l) refl (unregister-Agrees o l a)
  where
    go :
        (q : Option IoLoop)
        → unregister o l ≡ q
        → Succeeds q
        → (l' : IoLoop) × (unregister o l ≡ some l') × Agrees l'
    go none e b = absurd (unfold Succeeds in b)
    go (some l1) e b = (l1, e, unfold Succeeds in b)

call-Agrees : (c : Call) (l : IoLoop) → Agrees l → Succeeds (call c l)
unfolding call Succeeds inject_event
call-Agrees (registering fd h m) l a = register-Agrees fd h m l a
call-Agrees (unregistering o) l a = unregister-Agrees o l a
call-Agrees (injecting fd m) l a = a

-- Any sequence of register, unregister, with a closed socket or an open one, and inject_event, from
-- a loop where the poller watches exactly the descriptors that have a handler, succeeds, no EEXIST
-- or ENOENT from the poller among it, and leaves such a loop.
pub run_watches :
    (cs : List Call) (l : IoLoop) → Agrees l → (l' : IoLoop) × (run cs l ≡ some l') × Agrees l'
unfolding run
run_watches [] l a = (l, refl, a)
run_watches (c ∷ cs) l a = go (call c l) refl (call-Agrees c l a) (run_watches cs)
  where
    go :
        (o : Option IoLoop)
        → call c l ≡ o
        → Succeeds o
        → ((l1 : IoLoop) → Agrees l1 → (l' : IoLoop) × (run cs l1 ≡ some l') × Agrees l')
        → (l' : IoLoop) × (run (c ∷ cs) l ≡ some l') × Agrees l'
    go none e b f = absurd (unfold Succeeds in b)
    go (some l1) e b f = let (l', q, k) = f l1 (unfold Succeeds in b) in (l', rw (e, run) q, k)
