-- ===== src/Sources.antt =====
-- savate/sources.py: StreamSource's state of an on-demand stream, and the sources that buffer raw
-- data. What a source does to the rest of the server is listed in `effects`, in order.
pub mod States
pub mod Raw
pub mod Receive
pub mod Receiving
mod Examples
use savate.Prelude.{Bool, Bytes, List, Option, [], if◌then◌else◌, none, some, ◌++◌, ◌∷◌}
use savate.BurstQueue

-- The states of `on_demand`.
pub data OnDemand : Type 0 where
  disabled stopped connecting running closing : OnDemand

-- The calls on the server, its loop, its timeouts and the relay that the methods make.
pub data Effect : Type 0 where
  publish : Bytes → Effect
  add_packet : Bytes → Effect
  arm_deactivation : Effect
  cancel_deactivation : Effect
  reconnect_relay : Effect
  unregister : Effect
  close_socket : Effect
  register : Effect

pub record StreamSource : Type 0 where
  pub on_demand : OnDemand
  -- whether the source has a relay
  pub has_relay : Bool
  pub effects : List Effect

emit : Effect → StreamSource → StreamSource
emit e s = record s { effects = s.effects ++ e ∷ [] }

-- `__init__`: `on_demand` is the configuration's flag.
pub init : Bool → Bool → StreamSource
init on_demand has_relay = record {
  on_demand = if on_demand then running else disabled;
  has_relay = has_relay;
  effects = [];
}

-- `none` is the exception of a source without a relay.
pub on_demand_activate : StreamSource → Option StreamSource
on_demand_activate s =
    if s.has_relay
    then (elim s.on_demand [
      | closing ↦ some (record (emit cancel_deactivation s) { on_demand = running })
      | stopped ↦ some (record (emit reconnect_relay s) { on_demand = connecting })
      | _ ↦ some s
    ])
    else none

-- The inactivity timeout, which goes here too, is left out.
pub on_demand_deactivate : StreamSource → StreamSource
on_demand_deactivate s = record (emit close_socket (emit unregister s)) { on_demand = stopped }

pub on_demand_connected : StreamSource → StreamSource
on_demand_connected s = record (emit register s) { on_demand = running }

-- `publish_packet`; `clients` says whether the source has any.
pub publish_packet : Bool → Bytes → StreamSource → StreamSource
publish_packet clients packet s =
    let idle : StreamSource = record (emit arm_deactivation s) { on_demand = closing } in
    emit (publish packet) (elim s.on_demand [ running ↦ if clients then s else idle | _ ↦ s ])

pub new_client : StreamSource → Option StreamSource
new_client s = elim s.on_demand [
  | stopped ↦ on_demand_activate s
  | closing ↦ some (record (emit cancel_deactivation s) { on_demand = running })
  | _ ↦ some s
]
