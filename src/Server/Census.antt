-- ===== src/Server/Census.antt =====
-- The clients of savate/server.py, wherever they are: those in the tables of sources and those that are
-- kept. They are counted by a weight of their descriptors, which also tells how often one is there.
pub mod Tables
pub mod Joining
pub mod Arriving
pub mod Leaving
pub mod Departing
pub mod Removing
pub mod Going
pub mod Expiring
pub mod Counted
mod Examples
use savate.Prelude.{Bytes, List, [], if◌then◌else◌, some, ℕ, ◌+◌, ◌==◌, ◌∷◌, ◌≡◌}
use savate.Dict.{Dict, lookup}
use savate.Dict.Sums.{HasOnce, sum_entries}
use savate.Server.Routing.{Kept, Server}
use savate.Prelude.{bytes_eq, nat_eq}

abbrev pub weigh_clients : (ℕ → ℕ) → Dict ℕ ℕ → ℕ
weigh_clients w clients = sum_entries (λ fd c. w fd) clients

abbrev pub weigh_sources : (ℕ → ℕ) → Dict ℕ (Dict ℕ ℕ) → ℕ
weigh_sources w d = sum_entries (λ source clients. weigh_clients w clients) d

unfoldable pub weigh_kept : (ℕ → ℕ) → List Kept → ℕ
weigh_kept w [] = 0
weigh_kept w (k ∷ ks) = w k.fd + weigh_kept w ks

abbrev pub weigh_paths : (ℕ → ℕ) → Dict Bytes (Dict ℕ (Dict ℕ ℕ)) → ℕ
weigh_paths w sources = sum_entries (λ path d. weigh_sources w d) sources

abbrev pub weigh_waiting : (ℕ → ℕ) → Dict Bytes (List Kept) → ℕ
weigh_waiting w keepalived = sum_entries (λ path ks. weigh_kept w ks) keepalived

abbrev pub weigh : (ℕ → ℕ) → Server → ℕ
weigh w s = weigh_paths w s.sources + weigh_waiting w s.keepalived

-- One for each client, and one for each with a descriptor.
abbrev pub each : ℕ → ℕ
each fd = 1

abbrev pub having : ℕ → ℕ → ℕ
having f fd = if fd == f then 1 else 0

-- Dictionaries that hold a key once.
pub record IsTable (s : Server) : Type 0 where
  pub paths : HasOnce s.sources
  pub tables : (p : Bytes) (d : Dict ℕ (Dict ℕ ℕ)) → lookup p s.sources ≡ some d → HasOnce d
  pub clients :
      (p : Bytes) (d : Dict ℕ (Dict ℕ ℕ)) (source : ℕ) (cs : Dict ℕ ℕ)
      → lookup p s.sources ≡ some d
      → lookup source d ≡ some cs
      → HasOnce cs
  pub kept : HasOnce s.keepalived
