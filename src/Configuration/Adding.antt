-- ===== src/Configuration/Adding.antt =====
-- savate/configuration.py: configure_relays.
pub mod Settled
pub mod Once
use savate.Prelude.{Bool, Bytes, List, Option, [], false, if◌then◌else◌, none, some, ℕ, ◌++◌, ◌∷◌}
use savate.Configuration.{
  Config, Mount, Relay, Relays, convert_burst_size, get_default, in_index, indexed,
}

module _ (is_udp : Bytes → Bool) (getaddrinfo : Bytes → List ℕ)
    (connects : Bytes → Option ℕ → Bool) where
  -- The test and the call of `add_relay` at each of its three places.
  unfoldable pub add_missing : List Relay → Relay → Relays → Option Relays
  add_missing index r s =
      if in_index r.url r.path r.addr_info index
      then some s
      else if connects r.url r.addr_info
      then some (record s { relays = s.relays ++ r ∷ [] })
      else none

  unfoldable pub add_addresses : List Relay → Relay → List ℕ → Relays → Option Relays
  add_addresses index r [] s = some s
  add_addresses index r (a ∷ addresses) s =
      elim (add_missing index (record r { addr_info = some a }) s) [
        | none ↦ none
        | some s' ↦ add_addresses index r addresses s'
      ]

  -- One URL of a mount: `r` is the relay without an address. A UDP relay has the burst size alone.
  unfoldable pub add_url : List Relay → Bool → Relay → Relays → Option Relays
  add_url index resolve_all r s =
      if is_udp r.url
      then add_missing index (record r { on_demand = false; keepalive = none }) s
      else if resolve_all
      then add_addresses index r (getaddrinfo r.url) s
      else add_missing index r s

  unfoldable pub add_urls : List Relay → Bool → Relay → List Bytes → Relays → Option Relays
  add_urls index resolve_all r [] s = some s
  add_urls index resolve_all r (url ∷ urls) s =
      elim (add_url index resolve_all (record r { url = url }) s) [
        | none ↦ none
        | some s' ↦ add_urls index resolve_all r urls s'
      ]

  unfoldable pub add_mount : List Relay → Config → Mount → Relays → Option Relays
  add_mount index conf m s = elim m.source_urls [
    | none ↦ some s
    | some urls ↦ elim (convert_burst_size (get_default m.burst_size conf.burst_size)) [
      | none ↦ none
      | some burst_size ↦
          add_urls index (get_default m.net_resolve_all conf.net_resolve_all)
            (record {
              url = [];
              path = m.path;
              addr_info = none;
              burst_size = burst_size;
              on_demand = get_default m.on_demand conf.on_demand;
              keepalive = get_default m.keepalive conf.keepalive;
            })
            urls s
    ]
  ]

  unfoldable pub add_mounts : List Relay → Config → List Mount → Relays → Option Relays
  add_mounts index conf [] s = some s
  add_mounts index conf (m ∷ mounts) s = elim (add_mount index conf m s) [
    | none ↦ none
    | some s' ↦ add_mounts index conf mounts s'
  ]

  unfoldable pub configure_relays : Config → Relays → Option Relays
  configure_relays conf s = add_mounts (indexed s) conf conf.mounts s
