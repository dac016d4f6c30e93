-- ===== src/Timeouts/Activity.antt =====
-- savate/timeouts.py, IOTimeout, with reset_inactivity_timeout and remove_inactivity_timeout of
-- savate/server.py: a socket without I/O for too long has its handler closed. A handler's socket is its
-- key, so that a relay and its source share one timeout.
pub mod Latest
use savate.Prelude.{Eq, Option, ℕ, ◌+◌}
use savate.Timeouts.{Timeouts, remove_timeout, reset_timeout}

-- INACTIVITY_TIMEOUT, in seconds
abbrev pub inactivity_timeout : ℕ
inactivity_timeout = 10

-- `H` are the handlers; `fired h` is the callback that closes `h`.
module _ {H K C : Type 0} ⦃e : Eq K⦄ (sock : H → K) (fired : H → C) where
  pub reset_io_timeout : H → ℕ → Timeouts K C → Option (Timeouts K C)
  reset_io_timeout handler expiration s = reset_timeout (sock handler) expiration (fired handler) s

  pub remove_io_timeout : H → Timeouts K C → Timeouts K C
  remove_io_timeout handler s = remove_timeout (sock handler) s

  -- At the time `now` of the loop.
  pub reset_inactivity_timeout : ℕ → H → Timeouts K C → Option (Timeouts K C)
  reset_inactivity_timeout now handler s = reset_io_timeout handler (now + inactivity_timeout) s

  pub remove_inactivity_timeout : H → Timeouts K C → Timeouts K C
  remove_inactivity_timeout handler s = remove_io_timeout handler s
