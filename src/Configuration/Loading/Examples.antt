-- ===== src/Configuration/Loading/Examples.antt =====
-- A server with one handler of each kind, and a new configuration. Handlers are numbers, and those above 9
-- have a method `close`.
use savate.Configuration.Loading.{
  Config, Entry, Handlers, Loaded, reconfigure_server, made, not_int, reload_handlers, rsplit_dot,
  value_error, with_close,
}
use savate.Configuration.Loading.Replaced.{EndsAs, IsReplaced, Makes, reconfigure_server-IsReplaced}
use savate.Configuration
use savate.Configuration.{Relays, null}
use savate.Configuration.Reload.{reconfigure}
use savate.Configuration.Loading.Refused.{reload_handlers-refused}
use savate.Prelude.{
  Bool, Bytes, [], codes_of, ltb, none, refl, some, false, true, ℕ, ◌++◌, ◌∷◌, ◌≡◌,
}
use savate.Dict.{lookup}
use savate.Prelude.{bytes_eq}

-- Every class is called with a number, which is its handler.
abbrev load : Bytes → Bytes → ℕ → Loaded ℕ
load m k n = made n

abbrev closable : ℕ → Bool
closable n = ltb 9 n

abbrev entry : ℕ → Entry ℕ
entry n = record { handler = some (codes_of "a.B"); args = n }

abbrev no_dot : Entry ℕ
no_dot = record { handler = some (codes_of "B"); args = 0 }

abbrev before : Handlers ℕ
before = record {
  auth_handlers = 11 ∷ 2 ∷ [];
  status_handlers = (codes_of "/old", 12) ∷ [];
  statistics_handlers = 13 ∷ [];
  closed = [];
  modules_loaded = [];
  clients_limit = some 5;
}

abbrev conf : Config ℕ
conf = record {
  auth = entry 1 ∷ [];
  status = (codes_of "/s", entry 3) ∷ [];
  statistics = [];
  clients_limit = not_int;
}

entry-Makes : (n : ℕ) → Makes load closable (entry n) n
unfolding rsplit_dot
entry-Makes n = record {
  name = codes_of "a.B";
  handler_module = codes_of "a";
  handler_class = codes_of "B";
  is_named = refl;
  is_split = refl;
  is_made = refl;
}

-- The old handler of the status page, 12, is not closed.
closes_two :
    with_close load closable before.auth_handlers
      ++ with_close load closable before.statistics_handlers
    ≡ 11 ∷ 13 ∷ []
unfolding with_close
closes_two = refl

-- No relay and no mount.
abbrev no_relays : Relays
no_relays = record { relays = []; relays_to_restart = []; closed = [] }

abbrev no_mounts : Configuration.Config
no_mounts = record {
  mounts = [];
  burst_size = null;
  on_demand = false;
  keepalive = none;
  net_resolve_all = false;
}

reconfigure_server-IsReplaced_example :
    (s' : Handlers ℕ) × IsReplaced load closable (1 ∷ []) [] ((codes_of "/s", 3) ∷ []) before s'
    × (s'.clients_limit ≡ some 5)
    × EndsAs load closable not_int s'
        (reconfigure (λ u. false) (λ u. 7 ∷ []) (λ u a. true) no_mounts no_relays)
        (reconfigure_server load closable
          (λ u. false)
          (λ u. 7 ∷ [])
          (λ u a. true)
          conf
          no_mounts
          before
          no_relays)
reconfigure_server-IsReplaced_example =
    reconfigure_server-IsReplaced load closable (λ u. false) (λ u. 7 ∷ []) (λ u a. true) conf
      no_mounts no_relays (1 ∷ []) [] ((codes_of "/s", 3) ∷ []) before (entry-Makes 1, tt)
      (refl, entry-Makes 3, tt) (unfold lookup in (refl, tt)) tt

reload_handlers-refused_example :
    (s' : Handlers ℕ) × (reload_handlers load closable
        (record conf { auth = no_dot ∷ entry 1 ∷ [] })
        before
      ≡ value_error s')
    × (s'.auth_handlers ≡ [])
    × (s'.status_handlers ≡ [])
    × (s'.statistics_handlers ≡ [])
reload_handlers-refused_example =
    reload_handlers-refused load closable (record conf { auth = no_dot ∷ entry 1 ∷ [] }) []
      (entry 1 ∷ []) no_dot (codes_of "B") [] before refl tt refl (unfold rsplit_dot in refl)
