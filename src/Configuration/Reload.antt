-- ===== src/Configuration/Reload.antt =====
-- savate/configuration.py: the part of `reconfigure` about relays.
pub mod Sifting
pub mod Wanted
use savate.Prelude.{
  Bool, Bytes, List, Option, [], bytes_eq, if◌then◌else◌, none, same_bytes, some, ℕ, ◌&&◌, ◌++◌,
  ◌∷◌,
}
use savate.Dict.{Dict}
use savate.Configuration.{Config, Mount, Relay, Relays, convert_burst_size, get_default}
use savate.Configuration.Adding.{configure_relays}

-- The values of `relay_index`: a burst size, and a keepalive as int() makes it.
pub record Params : Type 0 where
  pub burst_size : Option ℕ
  pub keepalive : Option ℕ

-- The comprehension's inner loop: a row for each URL of a mount, the last one of a key counting.
unfoldable pub index_urls :
    Bytes → Params → List Bytes → Dict (Bytes × Bytes) Params → Dict (Bytes × Bytes) Params
index_urls path p [] d = d
index_urls path p (url ∷ urls) d = index_urls path p urls (((url, path), p) ∷ d)

unfoldable pub index_mounts :
    Config → List Mount → Dict (Bytes × Bytes) Params → Option (Dict (Bytes × Bytes) Params)
index_mounts conf [] d = some d
index_mounts conf (m ∷ mounts) d = elim (get_default m.source_urls []) [
  | [] ↦ index_mounts conf mounts d
  | url ∷ urls ↦ elim (convert_burst_size (get_default m.burst_size conf.burst_size)) [
    | none ↦ none
    | some burst_size ↦ index_mounts conf mounts (
        index_urls m.path
          (record { burst_size = burst_size; keepalive = get_default m.keepalive conf.keepalive })
          (url ∷ urls) d)
  ]
]

-- relay_index.get((url, path)): rows that were put in later come first here.
unfoldable pub params : Bytes → Bytes → Dict (Bytes × Bytes) Params → Option Params
params url path [] = none
params url path (((u, q), p) ∷ d) =
    if same_bytes u url && same_bytes q path then some p else params url path d

-- The loop over the relays, into the new dictionary and the relays that are dropped with their source, or
-- by themselves where they have none.
unfoldable pub sift : Dict (Bytes × Bytes) Params → List Relay → Relays → Relays
sift index [] s = s
sift index (r ∷ rs) s = elim (params r.url r.path index) [
  | some p ↦ sift index rs (record s {
    relays = s.relays ++ (record r { burst_size = p.burst_size; keepalive = p.keepalive }) ∷ [];
  })
  | none ↦ sift index rs (record s { closed = s.closed ++ r ∷ [] })
]

unfoldable pub sift_restarts : Dict (Bytes × Bytes) Params → List (ℕ × Relay) → List (ℕ × Relay)
sift_restarts index [] = []
sift_restarts index ((t, r) ∷ rs) =
    let rest = sift_restarts index rs in
    elim (params r.url r.path index) [ none ↦ rest | some p ↦ (t, r) ∷ rest ]

-- How a reload ends: with the new relays; with BadConfig, when the server's dictionary has been emptied and
-- its relays are known to nobody; or with an exception while relays are added.
pub data Reloaded : Type 0 where
  reloaded : Relays → Reloaded
  bad_config : Relays → Reloaded
  failed : Reloaded

module _ (is_udp : Bytes → Bool) (getaddrinfo : Bytes → List ℕ)
    (connects : Bytes → Option ℕ → Bool) where
  -- The part of `reconfigure` from the relays on. What it tells the relays' sources is left out.
  unfoldable pub reconfigure : Config → Relays → Reloaded
  reconfigure conf s = elim (index_mounts conf conf.mounts []) [
    | none ↦ bad_config (record s { relays = [] })
    | some index ↦
        elim (configure_relays is_udp getaddrinfo connects conf (
          sift index s.relays (record s {
            relays = [];
            relays_to_restart = sift_restarts index s.relays_to_restart;
          }))) [ none ↦ failed | some s' ↦ reloaded s' ]
  ]
