-- ===== src/Server/Lifecycle/Examples.antt =====
-- A server whose second relay closes, waits, and is restarted before the server is stopped.
use savate.Prelude.{Bool, Bytes, List, Option, [], false, none, refl, true, ℕ, ◌∷◌, ◌≡◌}
use savate.Server.Lifecycle.{
  Signal, TcpServer, Turn, check_for_relay_restart, graceful_stop, handle_signals, is_serving,
  pop_relay, reload, reload_config, restart_all, restart_due, restart_relays, running,
  serve_forever, serving, turn,
}
use savate.Server.Lifecycle.Ending.{IsServing, serve_forever-ends}
use savate.Configuration.{Relay}

abbrev no_udp : Bytes → Bool
no_udp u = false

abbrev no_addresses : Bytes → List ℕ
no_addresses u = []

abbrev all_connect : Bytes → Option ℕ → Bool
all_connect u a = true

abbrev relay : ℕ → Relay
relay url = record {
  url = url ∷ [];
  path = 47 ∷ [];
  addr_info = none;
  burst_size = none;
  on_demand = false;
  keepalive = none;
}

abbrev server : TcpServer
server = record {
  state = running;
  reloading = false;
  listening = true;
  relays = record { relays = relay 104 ∷ relay 105 ∷ []; relays_to_restart = []; closed = [] };
}

abbrev at : ℕ → List ℕ → List Signal → Bool → Turn
at now closing signals any_client = record {
  now = now;
  closing = closing;
  signals = signals;
  any_client = any_client;
  config = none;
}

-- The second relay closes at 5; at 6 it is not due yet, at 7 it is made again.
abbrev turns : List Turn
turns = at 5 (1 ∷ []) [] true ∷ at 6 [] [] true ∷ at 7 (0 ∷ []) [] true ∷ []

abbrev after : List Relay → List (ℕ × Relay) → TcpServer
after rs ws = record server { relays = record { relays = rs; relays_to_restart = ws; closed = [] } }

waits_a_turn :
    serve_forever no_udp no_addresses all_connect
      (at 5 (1 ∷ []) [] true ∷ at 6 [] [] true ∷ [])
      true
      server
    ≡ serving (after (relay 104 ∷ []) ((6, relay 105) ∷ []))
unfolding serve_forever is_serving turn restart_all check_for_relay_restart pop_relay handle_signals
    restart_relays restart_due reload_config
waits_a_turn = refl

is_restarted :
    serve_forever no_udp no_addresses all_connect turns true server
    ≡ serving (after (relay 105 ∷ []) ((8, relay 104) ∷ []))
unfolding serve_forever is_serving turn restart_all check_for_relay_restart pop_relay handle_signals
    restart_relays restart_due reload_config
is_restarted = refl

-- A graceful stop with a client that stays for one turn more.
serve_forever-ends_example :
    (serve_forever no_udp no_addresses all_connect
        (at 5 [] (graceful_stop ∷ []) true ∷ at 6 [] [] false ∷ at 7 [] (reload ∷ []) true ∷ [])
        true
        server
      ≡ serve_forever no_udp no_addresses all_connect
          (at 5 [] (graceful_stop ∷ []) true ∷ at 6 [] [] false ∷ [])
          true
          server)
    × ¬ IsServing (
        serve_forever no_udp no_addresses all_connect
          (at 5 [] (graceful_stop ∷ []) true ∷ at 6 [] [] false ∷ [])
          true
          server)
serve_forever-ends_example =
    serve_forever-ends no_udp no_addresses all_connect (at 5 [] (graceful_stop ∷ []) true ∷ [])
      (at 6 [] [] false) (at 7 [] (reload ∷ []) true ∷ []) true server refl
