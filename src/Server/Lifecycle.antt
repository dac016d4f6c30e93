-- ===== src/Server/Lifecycle.antt =====
-- savate/server.py: serve_forever with the signals that steer it, the restart of relays, and reloads. What
-- the world does in a turn of the event loop is given by a record. Of a reload this is the part about relays;
-- the whole is in Configuration/Loading.
pub mod Relaying
pub mod Keeping
pub mod Ending
mod Examples
use savate.Prelude.{
  Bool, Bytes, List, Option, [], false, if◌then◌else◌, ltb, none, some, suc, true, zero, ℕ, ◌++◌,
  ◌+◌, ◌∷◌,
}
use savate.Configuration.{Config, Relay, Relays, waiting}
use savate.Configuration.Reload.{bad_config, failed, reconfigure, reloaded}

abbrev pub restart_delay : ℕ
restart_delay = 1

-- STATE_RUNNING, STATE_STOPPED, STATE_SHUTTING_DOWN
pub data State : Type 0 where
  running stopped shutting_down : State

-- The signals by their handlers.
pub data Signal : Type 0 where
  stop reload graceful_stop : Signal

pub record TcpServer : Type 0 where
  pub state : State
  pub reloading : Bool
  -- whether its own socket is open and registered
  pub listening : Bool
  pub relays : Relays

-- The relay at a place of the dictionary, and the others.
pub pop_relay : ℕ → List Relay → Option (Relay × List Relay)
pop_relay n [] = none
pop_relay zero (r ∷ rs) = some (r, rs)
pop_relay (suc n) (r ∷ rs) = elim (pop_relay n rs) [ none ↦ none | some (q, qs) ↦ some (q, r ∷ qs) ]

-- `check_for_relay_restart`; a handler whose socket is no relay's has no place.
pub check_for_relay_restart : ℕ → ℕ → Relays → Relays
check_for_relay_restart now place s = elim (pop_relay place s.relays) [
  | none ↦ s
  | some (r, rs) ↦ record s {
    relays = rs;
    relays_to_restart = s.relays_to_restart ++ (now + restart_delay, r) ∷ [];
  }
]

pub restart_all : ℕ → List ℕ → Relays → Relays
restart_all now [] s = s
restart_all now (place ∷ places) s = restart_all now places (check_for_relay_restart now place s)

-- A turn of the loop: the time, the relays whose handler closes, by their place, the signals that come,
-- whether there is a client afterwards, and the configuration file, `none` if it is no JSON.
pub record Turn : Type 0 where
  pub now : ℕ
  pub closing : List ℕ
  pub signals : List Signal
  pub any_client : Bool
  pub config : Option Config

-- How `serve_forever` goes: it ends, an exception ends it, or the turns have been used up. An exception
-- leaves the server as it was when that was raised, but out of `reconfigure` in a state that is not given.
pub data Served : Type 0 where
  ended died serving : TcpServer → Served
  died_reloading : Served

-- How a part of a turn goes.
pub data Turned : Type 0 where
  goes_on dies : TcpServer → Turned
  dies_reloading : Turned

-- How the restarts go: with what runs and what waits then, all done, or ended by an exception.
pub data Restarted : Type 0 where
  restarted refused : Relays → Restarted

-- A server whose socket is gone raises; that is taken to come while the loop waits, where no handler is
-- blamed for it and it leaves serve_forever.
pub handle_signal : Signal → TcpServer → Turned
handle_signal stop s = goes_on (record s { state = stopped })
handle_signal reload s = goes_on (record s { reloading = true })
handle_signal graceful_stop s =
    if s.listening then goes_on (record s { state = shutting_down; listening = false }) else dies s

pub handle_signals : List Signal → TcpServer → Turned
handle_signals [] s = goes_on s
handle_signals (g ∷ gs) s = elim (handle_signal g s) [
  | goes_on s' ↦ handle_signals gs s'
  | dies s' ↦ dies s'
  | dies_reloading ↦ dies_reloading
]

pub is_serving : Bool → State → Bool
is_serving any_client running = true
is_serving any_client stopped = false
is_serving any_client shutting_down = any_client

module _ (is_udp : Bytes → Bool) (getaddrinfo : Bytes → List ℕ)
    (connects : Bytes → Option ℕ → Bool) where
  -- The inner loop: the relays that are due, from the front of the queue, after those that run. One that
  -- cannot be made is off the queue and ends the loop with an exception.
  pub restart_due : ℕ → List (ℕ × Relay) → Relays → Restarted
  restart_due now [] s = restarted (record s { relays_to_restart = [] })
  restart_due now ((t, r) ∷ waiting) s =
      let rest = restart_due now waiting (record s { relays = s.relays ++ r ∷ [] }) in
      if ltb t now
      then (if connects r.url r.addr_info
          then rest
          else refused (record s { relays_to_restart = waiting }))
      else restarted (record s { relays_to_restart = (t, r) ∷ waiting })

  pub restart_relays : ℕ → TcpServer → Turned
  restart_relays now s = elim (restart_due now s.relays.relays_to_restart s.relays) [
    | restarted relays ↦ goes_on (record s { relays = relays })
    | refused relays ↦ dies (record s { relays = relays })
  ]

  -- `if self.reloading`
  pub reload_config : Option Config → TcpServer → Turned
  reload_config config s =
      if s.reloading
      then (elim config [
        | none ↦ goes_on (record s { reloading = false })
        | some conf ↦ elim (reconfigure is_udp getaddrinfo connects conf s.relays) [
          | reloaded relays ↦ goes_on (record s { reloading = false; relays = relays })
          | bad_config relays ↦ goes_on (record s { reloading = false; relays = relays })
          | failed ↦ dies_reloading
        ]
      ])
      else goes_on s

  -- The body of the outer loop.
  pub turn : Turn → TcpServer → Turned
  turn t s =
      elim (handle_signals t.signals (record s { relays = restart_all t.now t.closing s.relays })) [
        | dies s' ↦ dies s'
        | dies_reloading ↦ dies_reloading
        | goes_on s' ↦ elim (restart_relays t.now s') [
          | dies s'' ↦ dies s''
          | dies_reloading ↦ dies_reloading
          | goes_on s'' ↦ reload_config t.config s''
        ]
      ]

  -- `any_client` is that of the turn before.
  pub serve_forever : List Turn → Bool → TcpServer → Served
  serve_forever [] any_client s = if is_serving any_client s.state then serving s else ended s
  serve_forever (t ∷ ts) any_client s =
      if is_serving any_client s.state
      then (elim (turn t s) [
        | goes_on s' ↦ serve_forever ts t.any_client s'
        | dies s' ↦ died s'
        | dies_reloading ↦ died_reloading
      ])
      else ended s
