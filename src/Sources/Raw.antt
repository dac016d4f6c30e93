-- ===== src/Sources/Raw.antt =====
-- savate/sources.py: the sources that gather raw data into larger packets. A class is described by
-- its TEMP_BUFFER_SIZE, BURST_SIZE and, where it cuts at packet boundaries, its PACKET_SIZE.
pub mod Delivery
pub mod Aligned
use savate.Prelude.{
  Bool, Bytes, List, Option, [], drop, if◌then◌else◌, leb, length, none, some, take, ℕ, ◌%◌, ◌*◌,
  ◌++◌, ◌-◌, ◌/◌, ◌==◌, ◌^◌, ◌∷◌,
}
use savate.BurstQueue
use savate.BurstQueue.{BurstQueue}
use savate.Sources.{
  StreamSource, add_packet, new_client, on_demand_connected, on_demand_deactivate, publish_packet,
}

pub record RawSource : Type 0 where
  pub source : StreamSource
  pub output_buffer_data : Bytes
  pub burst_size : ℕ
  pub burst_packets : BurstQueue

-- BufferedRawSource
abbrev pub raw_temp_buffer_size : ℕ
raw_temp_buffer_size = 64 * 2 ^ 10

abbrev pub raw_burst_size : ℕ
raw_burst_size = 64 * 2 ^ 10

-- MPEGTSSource
abbrev pub mpegts_packet_size : ℕ
mpegts_packet_size = 188

abbrev pub mpegts_recv_buffer_size : ℕ
mpegts_recv_buffer_size = 50 * 7 * mpegts_packet_size

abbrev pub mpegts_temp_buffer_size : ℕ
mpegts_temp_buffer_size = 2 * mpegts_recv_buffer_size

-- LowBitrateSource
abbrev pub low_bitrate_temp_buffer_size : ℕ
low_bitrate_temp_buffer_size = 8 * 2 ^ 10

or_default : Option ℕ → ℕ → ℕ
or_default none d = d
or_default (some n) d = n

-- `__init__`, with the body that came with the request (empty without one).
pub init : ℕ → Bytes → Option ℕ → StreamSource → RawSource
init default_burst body burst_size s = record {
  source = s;
  output_buffer_data = body;
  burst_size = or_default burst_size default_burst;
  burst_packets = BurstQueue.init (or_default burst_size default_burst) [];
}

-- Publish a gathered packet and keep it for new clients; `none` is an IndexError of the queue.
pub send_out : Bool → Bytes → Bytes → RawSource → Option RawSource
send_out clients packet left s = elim (BurstQueue.append s.burst_packets packet) [
  | none ↦ none
  | some q ↦ some (record s {
    source = publish_packet clients packet s.source;
    burst_packets = q;
    output_buffer_data = left;
  })
]

-- `handle_packet` of BufferedRawSource
pub handle_packet : ℕ → Bool → Bytes → RawSource → Option RawSource
handle_packet temp_size clients packet s =
    let gathered = s.output_buffer_data ++ packet in
    if leb temp_size (length gathered)
    then send_out clients gathered [] s
    else some (record s { output_buffer_data = gathered })

-- `handle_packet` of FixedPacketSizeSource; `[-remaining_bytes:]` keeps the end.
pub handle_fixed : ℕ → ℕ → Bool → Bytes → RawSource → Option RawSource
handle_fixed packet_size temp_size clients packet s =
    let gathered = s.output_buffer_data ++ packet in
    let nb_packets = length gathered / packet_size in
    let remaining_bytes = length gathered % packet_size in
    if leb temp_size (length gathered)
    then (if remaining_bytes == 0
        then send_out clients gathered [] s
        else send_out clients (take (nb_packets * packet_size) gathered)
            (drop (length gathered - remaining_bytes) gathered) s)
    else some (record s { output_buffer_data = gathered })

pub deactivate : RawSource → RawSource
deactivate s = record s {
  source = on_demand_deactivate s.source;
  output_buffer_data = [];
  burst_packets = BurstQueue.clear s.burst_packets;
}

pub reconnected : Bytes → RawSource → RawSource
reconnected body s = record s { source = on_demand_connected s.source; output_buffer_data = body }

add_packets : List Bytes → StreamSource → StreamSource
add_packets [] s = s
add_packets (b ∷ bs) s = add_packets bs (record s { effects = s.effects ++ add_packet b ∷ [] })

pub new_raw_client : RawSource → Option RawSource
new_raw_client s = elim (new_client s.source) [
  | none ↦ none
  | some source ↦ some (record s { source = add_packets s.burst_packets.items source })
]

pub update_burst_size : ℕ → Option ℕ → RawSource → RawSource
update_burst_size default_burst new_burst_size s =
    let n = or_default new_burst_size default_burst in
    record s { burst_size = n; burst_packets = record (s.burst_packets) { maxbytes = n } }
