-- ===== src/Server/Registry/Examples.antt =====
-- Sources that come and go.
use savate.Prelude.{
  Bytes, [], arith, bytes_eq, codes_of, false, is_empty, nat_eq, none, refl, some, true, ℕ, ◌∷◌,
  ◌≡◌,
}
use savate.Dict.{Dict, lookup, put, remove}
use savate.Server.Routing.{Server, get_kept, keys, register_source}
use savate.Server.Registry.{remove_source, removed}
use savate.Server.Registry.Migration.{Moved, remove_source-Moved}
use savate.Server.Registry.Keepalive.{Restored, register_source-remove_source}

abbrev path : Bytes
path = codes_of "/a"

abbrev table : Dict ℕ ℕ
table = (7, 1) ∷ (8, 2) ∷ []

abbrev both : Dict ℕ (Dict ℕ ℕ)
both = (5, table) ∷ (6, []) ∷ []

-- Source 5 with clients 1 and 2, and source 6 with none, on one path.
abbrev two_sources : Server
two_sources = record {
  sources = (path, both) ∷ [];
  status_handlers = [];
  keepalived = [];
  keepalive_timeouts = [];
  client_source = (1, 5) ∷ (2, 5) ∷ [];
  clients_connected = 2;
  clients_limit = none;
}

abbrev one_source : Server
one_source = record two_sources { sources = (path, (5, table) ∷ []) ∷ [] }

remove_source-Moved_example :
    (s' : Server) × (remove_source (λ j. true) (λ j. path) none 5 two_sources ≡ removed s')
    × Moved path
        (keys (remove 5 both))
        table
        (record two_sources { sources = put path (remove 5 both) two_sources.sources })
        s'
unfolding lookup
remove_source-Moved_example =
    remove_source-Moved (λ j. true) (λ j. path) none 5 two_sources both table refl refl
      (refl, (refl, tt)) (omega arith) (refl, (refl, tt)) (λ j h. refl)

register_source-remove_source_example :
    (s1 : Server) × (remove_source (λ j. true) (λ j. path) (some 10) 5 one_source ≡ removed s1)
    × Restored path 6 table (register_source 6 path s1)
    × ((register_source 6 path s1).clients_connected ≡ 2)
    × (is_empty table ≡ false → lookup path (register_source 6 path s1).keepalive_timeouts ≡ none)
unfolding lookup get_kept
register_source-remove_source_example =
    register_source-remove_source (λ j. true) (λ j. path) 10 5 6 one_source table refl
      (refl, (refl, tt)) refl refl
