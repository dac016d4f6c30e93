-- ===== src/Shoutcast/Client.antt =====
-- savate/clients.py, ShoutcastClient: what is added to the packets of a listener that asked for
-- metadata.
pub mod Mux
pub mod RoundTrip
pub mod Headers
use savate.Prelude.{
  Bytes, Option, [], drop, if◌then◌else◌, length, ltb, none, same_bytes, some, suc, take, zero, ℕ,
  ◌*◌, ◌++◌, ◌+◌, ◌-◌, ◌^◌, ◌∷◌,
}

abbrev pub icy_meta_interval : ℕ
icy_meta_interval = 32 * 2 ^ 10

pub record IcyClient : Type 0 where
  pub bytes_count : ℕ
  pub metadata : Bytes

-- `__init__`
abbrev pub init : IcyClient
init = record { bytes_count = 0; metadata = [] }

-- What stands between two stretches of audio: the source's metadata if it is new, a zero otherwise.
unfoldable pub inserted : Bytes → IcyClient → Bytes
inserted source_metadata c =
    if same_bytes c.metadata source_metadata then 0 ∷ [] else source_metadata

-- The loop of `add_packet_with_metadata`, and what it joins; `none` is no end within the fuel. The
-- interval is a parameter here.
unfoldable pub weave : ℕ → ℕ → Bytes → Bytes → IcyClient → Option (Bytes × IcyClient)
weave interval zero source_metadata packet c = none
weave interval (suc fuel) source_metadata [] c = some ([], c)
weave interval (suc fuel) source_metadata (b ∷ packet) c =
    let room = interval - c.bytes_count in
    let rest =
      weave interval fuel source_metadata (drop room (b ∷ packet))
        (record { bytes_count = 0; metadata = source_metadata }) in
    if ltb interval (c.bytes_count + length (b ∷ packet))
    then (elim rest [
      | none ↦ none
      | some (out, c') ↦ some (take room (b ∷ packet) ++ (inserted source_metadata c ++ out), c')
    ])
    else some (b ∷ packet, record c { bytes_count = c.bytes_count + length (b ∷ packet) })

-- `add_packet_with_metadata`, up to the call of `StreamClient.add_packet` with the result. Two rounds
-- with no byte taken do not follow each other.
pub add_packet_with_metadata : Bytes → Bytes → IcyClient → Option (Bytes × IcyClient)
add_packet_with_metadata source_metadata packet c =
    weave icy_meta_interval (length packet + 2) source_metadata packet c
