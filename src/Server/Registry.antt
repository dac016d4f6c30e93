-- ===== src/Server/Registry.antt =====
-- savate/server.py: TCPServer.remove_source, remove_client and publish_packet, on the tables of
-- Server/Routing. A source comes with its path.
pub mod Migration
pub mod Keepalive
pub mod Closing
mod Examples
use savate.Prelude.{
  Bool, Bytes, List, Option, [], bytes_eq, if◌then◌else◌, is_empty, length, ltb, nat_eq, none, some,
  ℕ, ◌++◌, ◌-◌, ◌==◌, ◌∷◌,
}
use savate.Dict.{Dict, has, lookup, put, remove}
use savate.Server.Routing.{Kept, Server, add_client, get_kept, keys}

-- `none` is KeyError.
unfoldable pub drop_client : Bytes → ℕ → ℕ → Server → Option Server
drop_client path source fd s = elim (lookup path s.sources) [
  | none ↦ none
  | some d ↦ elim (lookup source d) [
    | none ↦ none
    | some clients ↦
        if has fd clients
        then some (record s { sources = put path (put source (remove fd clients) d) s.sources })
        else none
  ]
]

-- `path_of` gives each source its `path`. A client without a source has no entry.
module _ (path_of : ℕ → Bytes) where
  unfoldable pub remove_client : ℕ → ℕ → Server → Option Server
  remove_client fd client s =
      let s' = record s { clients_connected = s.clients_connected - 1 } in
      elim (lookup client s.client_source) [
        | none ↦ some s'
        | some source ↦ drop_client (path_of source) source fd s'
      ]

  -- The loop of `my_closure`: the clients that are kept are closed.
  unfoldable pub close_kept : List Kept → Server → Option Server
  close_kept [] s = some s
  close_kept (k ∷ ks) s = elim (remove_client k.fd k.client s) [
    | none ↦ none
    | some s' ↦ close_kept ks s'
  ]

  -- `my_closure`, when the keepalive timeout of a path fires and so is off, with
  -- `del self.keepalived[path]`.
  unfoldable pub expire_keepalive : Bytes → Server → Option Server
  expire_keepalive path s = elim (close_kept (get_kept path s) s) [
    | none ↦ none
    | some s' ↦ some (record s' {
      keepalived = remove path s'.keepalived;
      keepalive_timeouts = remove path s'.keepalive_timeouts;
    })
  ]

-- How `remove_source` ends: well, or with an exception in some state.
pub data Removed : Type 0 where
  removed : Server → Removed
  raised : Server → Removed

-- `client.source = None` and the place in `keepalived` for each client.
unfoldable pub keep_clients : Bytes → Dict ℕ ℕ → Server → Server
keep_clients path [] s = s
keep_clients path ((fd, client) ∷ cs) s = keep_clients path cs (record s {
  client_source = remove client s.client_source;
  keepalived =
      put path (get_kept path s ++ (record { fd = fd; client = client }) ∷ []) s.keepalived;
})

-- The migration's loop: `turn` is what is left of the round over the remaining sources. `activates` says
-- whether a source's on_demand_activate returns.
unfoldable pub migrate : (ℕ → Bool) → Bytes → List ℕ → List ℕ → Dict ℕ ℕ → Server → Removed
migrate activates path remaining turn [] s = removed s
migrate activates path remaining turn ((fd, client) ∷ cs) s =
    elim (if is_empty turn then remaining else turn) [
      | [] ↦ removed s
      | new_source ∷ rest ↦
          elim (add_client path new_source fd client
            (record s { client_source = put client new_source s.client_source })) [
              | none ↦ raised s
              | some s' ↦
                  if activates new_source
                  then migrate activates path remaining rest cs s'
                  else raised s'
            ]
    ]

module _ (activates : ℕ → Bool) (path_of : ℕ → Bytes) where
  -- The only source of a path goes. Without keepalive its clients are closed, each of which takes itself
  -- out of the dictionary that the loop goes over: RuntimeError after the first.
  unfoldable pub close_clients : Dict ℕ ℕ → Server → Removed
  close_clients [] s = removed s
  close_clients ((fd, client) ∷ cs) s = elim (remove_client path_of fd client s) [
    | none ↦ raised s
    | some s' ↦ raised s'
  ]

  unfoldable pub remove_last : Option ℕ → Bytes → Dict ℕ ℕ → Server → Removed
  remove_last none path clients s = elim (close_clients clients s) [
    | raised s' ↦ raised s'
    | removed s' ↦ removed (record s' { sources = remove path s'.sources })
  ]
  remove_last (some keepalive) path clients s =
      if keepalive == 0
      then (elim (close_clients clients s) [
        | raised s' ↦ raised s'
        | removed s' ↦ removed (record s' { sources = remove path s'.sources })
      ])
      else (let s' = keep_clients path clients s in
          removed (record s' {
            keepalive_timeouts = put path tt s'.keepalive_timeouts;
            sources = remove path s'.sources;
          }))

  -- `remove_source`, up to the calls of the loop and of the relays at its end.
  unfoldable pub remove_source : Option ℕ → ℕ → Server → Removed
  remove_source keepalive source s =
      let path = path_of source in
      elim (lookup path s.sources) [
        | none ↦ raised s
        | some d ↦ elim (lookup source d) [
          | none ↦ raised s
          | some clients ↦
              if ltb 1 (length d)
              then migrate activates path (keys (remove source d)) [] clients
                  (record s { sources = put path (remove source d) s.sources })
              else remove_last keepalive path clients s
        ]
      ]
