-- ===== src/Configuration.antt =====
-- savate/configuration.py: burst sizes, and which relays a configuration asks for. JSON and urlparse are
-- not modelled: values come as the data types below, `is_udp` says whether a URL has one of the schemes
-- udp and multicast, `getaddrinfo` gives a URL's addresses, and `connects` says whether a relay can be
-- made. An exception is `none`.
pub mod Adding
pub mod Reload
pub mod Loading
mod Examples
use savate.Prelude.{
  Bool, Bytes, List, Option, [], bytes_eq, false, if◌then◌else◌, leb, none, same_bytes, some, true,
  ℕ, ◌&&◌, ◌*◌, ◌++◌, ◌+◌, ◌-◌, ◌==◌, ◌^◌, ◌||◌, ◌∷◌,
}

-- A burst size as JSON has it.
pub data Size : Type 0 where
  null : Size
  int : ℕ → Size
  negative : Size
  text : Bytes → Size

is_digit : ℕ → Bool
is_digit c = leb b'0' c && leb c b'9'

-- The value of digits with a `k` behind them or not, after what has been read.
pub kilo : Bytes → ℕ → Option ℕ
kilo [] n = some n
kilo (c ∷ []) n =
    if c == b'k' then some (n * 2 ^ 10) else if is_digit c then some (n * 10 + (c - b'0')) else none
kilo (c ∷ d ∷ s) n =
    let rest = kilo (d ∷ s) (n * 10 + (c - b'0')) in if is_digit c then rest else none

-- `convert_burst_size`: `none` is BadConfig, `some none` is None. A newline at the end of a text, which `$`
-- lets pass, is left out.
pub convert_burst_size : Size → Option (Option ℕ)
convert_burst_size null = some none
convert_burst_size (int n) = some (some n)
convert_burst_size negative = none
convert_burst_size (text []) = none
convert_burst_size (text (c ∷ s)) =
    if is_digit c then (elim (kilo (c ∷ s) 0) [ none ↦ none | some n ↦ some (some n) ]) else none

-- One of "mounts"; what is absent is `none`.
pub record Mount : Type 0 where
  pub path : Bytes
  pub source_urls : Option (List Bytes)
  pub burst_size : Option Size
  pub on_demand : Option Bool
  -- a number, or a value that int() refuses
  pub keepalive : Option (Option ℕ)
  pub net_resolve_all : Option Bool

pub record Config : Type 0 where
  pub mounts : List Mount
  pub burst_size : Size
  pub on_demand : Bool
  pub keepalive : Option ℕ
  pub net_resolve_all : Bool

pub record Relay : Type 0 where
  pub url : Bytes
  pub path : Bytes
  pub addr_info : Option ℕ
  pub burst_size : Option ℕ
  pub on_demand : Bool
  pub keepalive : Option ℕ

-- The server's relays in the order of its dictionary, those that wait for a restart, and those that were
-- dropped with their sources.
pub record Relays : Type 0 where
  pub relays : List Relay
  pub relays_to_restart : List (ℕ × Relay)
  pub closed : List Relay

pub get_default {ℓ} : {A : Type ℓ} → Option A → A → A
get_default none d = d
get_default (some a) d = a

unfoldable pub same_address : Option ℕ → Option ℕ → Bool
same_address none none = true
same_address (some a) (some b) = a == b
same_address _ _ = false

-- `(url, path, address) in relay_index`
unfoldable pub in_index : Bytes → Bytes → Option ℕ → List Relay → Bool
in_index url path address [] = false
in_index url path address (r ∷ rs) =
    (same_bytes r.url url && same_bytes r.path path && same_address r.addr_info address)
    || in_index url path address rs

unfoldable pub waiting : List (ℕ × Relay) → List Relay
waiting [] = []
waiting ((t, r) ∷ rs) = r ∷ waiting rs

-- The relays that `configure_relays` puts into its index.
unfoldable pub indexed : Relays → List Relay
indexed s = s.relays ++ waiting s.relays_to_restart
