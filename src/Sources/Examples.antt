-- ===== src/Sources/Examples.antt =====
-- Sources at work.
use savate.Prelude.{
  Bytes, List, [], arith, codes_of, false, length, refl, some, true, ◌<◌, ◌∷◌, ◌≡◌, ◌≢◌, ◌⊎◌,
}
use savate.BurstQueue.Bounds.{IsCounted}
use savate.Sources
use savate.Sources.{StreamSource, closing, on_demand_deactivate, publish_packet, running}
use savate.Sources.States.{IsInStep, Reach, Reach-IsInStep, here, next, on_packet, on_timeout}
use savate.Sources.Raw.{RawSource, handle_fixed, handle_packet}
use savate.Sources.Raw.Delivery.{Handled}
use savate.Sources.Raw.Aligned.{AllAligned, handle_fixed-Handled}
use savate.Sources.Receiving.{
  buffered_raw, find_source, flv, handle_event, sources_mapping, waiting,
}
use savate.Sources.Receiving.Drained.{Gives, handle_event-IsDrained, last, more, short}
use savate.Server.Request.{Received, again, bytes}
use savate.Dict.{lookup}
use savate.Auth.{is_ascii}
use savate.Relay.{has_pollin}
use savate.Prelude.{bytes_eq}

-- An on-demand source whose clients are gone, up to its deactivation.
abbrev idle : StreamSource
idle = publish_packet false (1 ∷ []) (Sources.init true true)

idle-closing : idle.on_demand ≡ closing
unfolding publish_packet Sources.init Sources.emit
idle-closing = refl

idle_reached : Reach (Sources.init true true) (on_demand_deactivate idle)
idle_reached =
    next
      (next here (
        on_packet (Sources.init true true) false (1 ∷ []) (unfold Sources.init in λ p. cc)
          (unfold Sources.init in λ p. cc)))
      (on_timeout idle idle-closing)

Reach-IsInStep_example : IsInStep (on_demand_deactivate idle)
Reach-IsInStep_example = Reach-IsInStep true true idle_reached

-- A source that gathers four bytes, or two packets of three.
abbrev gathering : RawSource
gathering = record {
  source = record { on_demand = running; has_relay = true; effects = [] };
  output_buffer_data = 1 ∷ 2 ∷ [];
  burst_size = 6;
  burst_packets = record { items = []; maxbytes = 6; current_size = 0 };
}

gathering-IsCounted : IsCounted (gathering.burst_packets)
gathering-IsCounted = omega arith

-- A socket that has these packets.
abbrev queued : List Bytes → Received × List Bytes
queued [] = (again, [])
queued (b ∷ bs) = (bytes b, bs)

-- A full packet of four bytes, and one that is not full.
abbrev two_packets : List Bytes
two_packets = (3 ∷ 4 ∷ 5 ∷ 6 ∷ []) ∷ (7 ∷ []) ∷ []

two_packets-Gives : Gives queued 4 two_packets two_packets short []
two_packets-Gives = more refl (omega arith) (omega arith) (last refl (omega arith) (omega arith))

handle_event-IsDrained_example :
    (s' : RawSource) × (out : List Bytes) × (handle_event queued
        (λ b t. handle_packet 5 true b t)
        4
        3
        1
        gathering
        two_packets
      ≡ waiting s' [])
    × Handled gathering (3 ∷ 4 ∷ 5 ∷ 6 ∷ 7 ∷ []) out s'
    × (length s'.output_buffer_data < 5)
handle_event-IsDrained_example =
    handle_event-IsDrained queued 4 5 true 3 1 gathering two_packets [] two_packets short
      (unfold has_pollin in refl) (omega arith) gathering-IsCounted (omega arith) two_packets-Gives
      (omega arith)

flv_source : find_source ((codes_of "Content-Type", codes_of "video/x-flv") ∷ []) ≡ some flv
unfolding find_source sources_mapping lookup is_ascii
flv_source = refl

no_content_type : find_source [] ≡ some buffered_raw
unfolding find_source sources_mapping lookup is_ascii
no_content_type = refl

handle_fixed-Handled_example :
    (s' : RawSource) × (handle_fixed 3 6 true (3 ∷ 4 ∷ 5 ∷ 6 ∷ 7 ∷ []) gathering ≡ some s')
    × ((out : List Bytes) × Handled gathering (3 ∷ 4 ∷ 5 ∷ 6 ∷ 7 ∷ []) out s'
        × AllAligned 3 out
        × ((length s'.output_buffer_data < 6) ⊎ ((out ≢ []) × (length s'.output_buffer_data < 3))))
handle_fixed-Handled_example =
    handle_fixed-Handled 3 6 true (3 ∷ 4 ∷ 5 ∷ 6 ∷ 7 ∷ []) gathering (omega arith)
      gathering-IsCounted
