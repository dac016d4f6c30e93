-- ===== src/Configuration/Examples.antt =====
-- Two mounts, and reloads of their configuration.
use savate.Prelude.{Bool, Bytes, List, Option, [], false, none, refl, some, true, ℕ, ◌∷◌, ◌≡◌}
use savate.Configuration.{
  Config, Mount, Relay, Relays, convert_burst_size, get_default, in_index, indexed, is_digit, kilo,
  null, same_address, text, waiting,
}
use savate.Configuration.Adding.{
  add_addresses, add_missing, add_mount, add_mounts, add_url, add_urls, configure_relays,
}
use savate.Configuration.Adding.Once.{configure_relays_twice}
use savate.Configuration.Reload.{
  index_mounts, index_urls, params, reconfigure, reloaded, sift, sift_restarts,
}
use savate.Configuration.Reload.Wanted.{IsReload, reconfigure-IsReload}

abbrev no_udp : Bytes → Bool
no_udp u = false

abbrev two_addresses : Bytes → List ℕ
two_addresses u = 7 ∷ 8 ∷ []

abbrev all_connect : Bytes → Option ℕ → Bool
all_connect u a = true

abbrev live : Mount
live = record {
  path = 47 ∷ [];
  source_urls = some ((104 ∷ []) ∷ (105 ∷ []) ∷ []);
  burst_size = some (text (52 ∷ 107 ∷ []));
  on_demand = none;
  keepalive = none;
  net_resolve_all = some true;
}

abbrev conf : Config
conf = record {
  mounts = live ∷ [];
  burst_size = null;
  on_demand = false;
  keepalive = none;
  net_resolve_all = false;
}

abbrev relay : ℕ → ℕ → Option ℕ → Relay
relay url address burst_size = record {
  url = url ∷ [];
  path = 47 ∷ [];
  addr_info = some address;
  burst_size = burst_size;
  on_demand = false;
  keepalive = none;
}

-- One relay that is wanted, and one that is not.
abbrev before : Relays
before = record {
  relays = relay 104 7 none ∷ relay 106 7 none ∷ [];
  relays_to_restart = [];
  closed = [];
}

abbrev after : Relays
after = record {
  relays =
      relay 104 7 (some 4096)
      ∷ relay 104 8 (some 4096)
      ∷ relay 105 7 (some 4096)
      ∷ relay 105 8 (some 4096)
      ∷ [];
  relays_to_restart = [];
  closed = relay 106 7 none ∷ [];
}

reconfigure-after : reconfigure no_udp two_addresses all_connect conf before ≡ reloaded after
unfolding reconfigure configure_relays index_mounts index_urls params sift sift_restarts indexed
    waiting in_index same_address add_mounts add_mount add_urls add_url add_addresses add_missing
    get_default convert_burst_size kilo is_digit
reconfigure-after = refl

reconfigure-IsReload_example : IsReload (live ∷ []) before after
reconfigure-IsReload_example =
    reconfigure-IsReload no_udp two_addresses all_connect conf before after reconfigure-after

-- Without a reload nothing is dropped.
abbrev grown : Relays
grown = record {
  relays =
      relay 104 7 none
      ∷ relay 106 7 none
      ∷ relay 104 8 (some 4096)
      ∷ relay 105 7 (some 4096)
      ∷ relay 105 8 (some 4096)
      ∷ [];
  relays_to_restart = [];
  closed = [];
}

configure_relays-grown : configure_relays no_udp two_addresses all_connect conf before ≡ some grown
unfolding configure_relays indexed waiting in_index same_address add_mounts add_mount add_urls
    add_url add_addresses add_missing get_default convert_burst_size kilo is_digit
configure_relays-grown = refl

configure_relays_twice_example :
    configure_relays no_udp two_addresses all_connect conf grown ≡ some grown
configure_relays_twice_example =
    configure_relays_twice no_udp two_addresses all_connect conf before grown configure_relays-grown
