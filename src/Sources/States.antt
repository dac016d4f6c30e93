-- ===== src/Sources/States.antt =====
-- savate/sources.py: the states of an on-demand source through its life.
use savate.Prelude.{
  Bool, Bytes, List, [], arith, false, none, refl, some, true, ◌++◌, ◌↔◌, ◌∷◌, ◌≡◌, ◌≢◌,
}
use savate.Sources.{
  Effect, OnDemand, StreamSource, arm_deactivation, cancel_deactivation, close_socket, closing,
  connecting, emit, init, new_client, on_demand_activate, on_demand_connected, on_demand_deactivate,
  publish, publish_packet, reconnect_relay, register, stopped, unregister,
}

-- The timeout fires only where it is armed, and the relay reports only a connection that is being
-- made; upstream sends only on a connection that is up. `on_migration` is what remove_source calls on a
-- source that clients are moved to. The source's own close is not a step.
pub data Step : StreamSource → StreamSource → Type 0 where
  on_packet :
      (s : StreamSource) (clients : Bool) (b : Bytes)
      → s.on_demand ≢ stopped
      → s.on_demand ≢ connecting
      → Step s (publish_packet clients b s)
  on_client : (s s' : StreamSource) → new_client s ≡ some s' → Step s s'
  on_migration : (s s' : StreamSource) → on_demand_activate s ≡ some s' → Step s s'
  on_timeout : (s : StreamSource) → s.on_demand ≡ closing → Step s (on_demand_deactivate s)
  on_connected : (s : StreamSource) → s.on_demand ≡ connecting → Step s (on_demand_connected s)

pub data Reach (s : StreamSource) : StreamSource → Type 0 where
  here : Reach s s
  next : {t u : StreamSource} → Reach s t → Step t u → Reach s u

-- Whether the deactivation timeout is armed after the calls: it is also gone once it has fired,
-- which is where `unregister` comes from.
abbrev armed_after : Bool → List Effect → Bool
armed_after b [] = b
armed_after b (arm_deactivation ∷ es) = armed_after true es
armed_after b (cancel_deactivation ∷ es) = armed_after false es
armed_after b (unregister ∷ es) = armed_after false es
armed_after b (e ∷ es) = armed_after b es

-- Whether the loop watches the source's socket; it does from the source's registration on.
abbrev watched_after : Bool → List Effect → Bool
watched_after b [] = b
watched_after b (register ∷ es) = watched_after true es
watched_after b (unregister ∷ es) = watched_after false es
watched_after b (e ∷ es) = watched_after b es

armed_after-append :
    (b : Bool) (es fs : List Effect) → armed_after b (es ++ fs) ≡ armed_after (armed_after b es) fs
armed_after-append b [] fs = refl
armed_after-append b (arm_deactivation ∷ es) fs = armed_after-append true es fs
armed_after-append b (cancel_deactivation ∷ es) fs = armed_after-append false es fs
armed_after-append b (unregister ∷ es) fs = armed_after-append false es fs
armed_after-append b (_ ∷ es) fs = armed_after-append b es fs

watched_after-append :
    (b : Bool) (es fs : List Effect)
    → watched_after b (es ++ fs) ≡ watched_after (watched_after b es) fs
watched_after-append b [] fs = refl
watched_after-append b (register ∷ es) fs = watched_after-append true es fs
watched_after-append b (unregister ∷ es) fs = watched_after-append false es fs
watched_after-append b (_ ∷ es) fs = watched_after-append b es fs

abbrev is_closing : OnDemand → Bool
is_closing closing = true
is_closing _ = false

abbrev is_up : OnDemand → Bool
is_up stopped = false
is_up connecting = false
is_up _ = true

pub record IsInStep (s : StreamSource) : Type 0 where
  pub timed : armed_after false s.effects ≡ is_closing s.on_demand
  pub watched : watched_after true s.effects ≡ is_up s.on_demand

publish_packet-IsInStep :
    (clients : Bool) (b : Bytes) (s : StreamSource)
    → s.on_demand ≢ stopped
    → s.on_demand ≢ connecting
    → IsInStep s
    → IsInStep (publish_packet clients b s)
unfolding publish_packet emit
publish_packet-IsInStep clients b s h k v =
    let es = s.effects in
    ground (
      arith,
      armed_after-append false es (publish b ∷ []),
      armed_after-append false es (arm_deactivation ∷ []),
      armed_after-append false (es ++ arm_deactivation ∷ []) (publish b ∷ []),
      watched_after-append true es (publish b ∷ []),
      watched_after-append true es (arm_deactivation ∷ []),
      watched_after-append true (es ++ arm_deactivation ∷ []) (publish b ∷ []),
    )

new_client-IsInStep : (s s' : StreamSource) → new_client s ≡ some s' → IsInStep s → IsInStep s'
unfolding new_client on_demand_activate emit
new_client-IsInStep s s' p v =
    let es = s.effects in
    ground (
      arith,
      armed_after-append false es (cancel_deactivation ∷ []),
      armed_after-append false es (reconnect_relay ∷ []),
      watched_after-append true es (cancel_deactivation ∷ []),
      watched_after-append true es (reconnect_relay ∷ []),
    )

on_demand_activate-IsInStep :
    (s s' : StreamSource) → on_demand_activate s ≡ some s' → IsInStep s → IsInStep s'
unfolding on_demand_activate emit
on_demand_activate-IsInStep s s' p v =
    let es = s.effects in
    ground (
      arith,
      armed_after-append false es (cancel_deactivation ∷ []),
      armed_after-append false es (reconnect_relay ∷ []),
      watched_after-append true es (cancel_deactivation ∷ []),
      watched_after-append true es (reconnect_relay ∷ []),
    )

on_demand_deactivate-IsInStep : (s : StreamSource) → IsInStep s → IsInStep (on_demand_deactivate s)
unfolding on_demand_deactivate emit
on_demand_deactivate-IsInStep s v =
    let es = s.effects in
    ground (
      arith,
      armed_after-append false es (unregister ∷ []),
      armed_after-append false (es ++ unregister ∷ []) (close_socket ∷ []),
      watched_after-append true es (unregister ∷ []),
      watched_after-append true (es ++ unregister ∷ []) (close_socket ∷ []),
    )

on_demand_connected-IsInStep :
    (s : StreamSource) → s.on_demand ≡ connecting → IsInStep s → IsInStep (on_demand_connected s)
unfolding on_demand_connected emit
on_demand_connected-IsInStep s h v = ground (
  arith,
  armed_after-append false s.effects (register ∷ []),
  watched_after-append true s.effects (register ∷ []),
)

Step-IsInStep : {s t : StreamSource} → Step s t → IsInStep s → IsInStep t
Step-IsInStep (on_packet s clients b h k) v = publish_packet-IsInStep clients b s h k v
Step-IsInStep (on_client s s' p) v = new_client-IsInStep s s' p v
Step-IsInStep (on_migration s s' p) v = on_demand_activate-IsInStep s s' p v
Step-IsInStep (on_timeout s h) v = on_demand_deactivate-IsInStep s v
Step-IsInStep (on_connected s h) v = on_demand_connected-IsInStep s h v

-- Through any packets, new clients, clients moved to it, timeouts and reconnections from a source's making
-- on, until it is closed: its deactivation timeout is armed exactly while it is in state CLOSING, and the
-- loop watches its socket exactly while it is neither STOPPED nor CONNECTING.
pub Reach-IsInStep :
    (on_demand has_relay : Bool) {s : StreamSource}
    → Reach (init on_demand has_relay) s
    → IsInStep s
unfolding init
Reach-IsInStep on_demand has_relay here = ground arith
Reach-IsInStep on_demand has_relay (next r st) =
    Step-IsInStep st (Reach-IsInStep on_demand has_relay r)

-- A new client of a source with a relay is never refused, and keeps the source or wakes it: its
-- state is then neither STOPPED nor CLOSING. Without a relay it is refused exactly if the source is
-- STOPPED.
pub new_client-wakes :
    (s : StreamSource)
    → (s.has_relay ≡ true
        → (new_client s ≢ none)
          × ((s' : StreamSource)
              → new_client s ≡ some s'
              → (s'.on_demand ≢ stopped) × (s'.on_demand ≢ closing)))
      × (s.has_relay ≡ false → (new_client s ≡ none) ↔ (s.on_demand ≡ stopped))
unfolding new_client on_demand_activate emit
new_client-wakes s = (
  λ h. (ground (arith, h), λ s' p. ground (arith, h, p)),
  λ h. (λ p. ground (arith, h, p), λ p. ground (arith, h, p)),
)
