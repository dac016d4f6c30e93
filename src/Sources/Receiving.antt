-- ===== src/Sources/Receiving.antt =====
-- savate/sources.py: StreamSource.handle_event, and find_source. What a class does with a packet and how
-- it receives one are parameters; the inactivity timeout is left out.
pub mod Drained
use savate.Prelude.{
  Bytes, Option, [], codes_of, if◌then◌else◌, length, ltb, none, some, suc, zero, ℕ, ◌*◌, ◌^◌, ◌∷◌,
}
use savate.Dict.{Dict, lookup}
use savate.Server.Request.{Received, again, bytes, failed}
use savate.Relay.{has_pollin}
use savate.Prelude.{bytes_eq}
use savate.Auth.{is_ascii}

abbrev pub recv_buffer_size : ℕ
recv_buffer_size = 64 * 2 ^ 10

-- How an event ends: waiting for the next one, at the end of the stream, where the source closes itself, or
-- with an exception.
pub data Ended (Source Sock : Type 0) : Type 0 where
  waiting closed : Source → Sock → Ended Source Sock
  raised out_of_fuel : Ended Source Sock

module _ {Source Sock : Type 0} (recv_packet : Sock → Received × Sock)
    (handle_packet : Bytes → Source → Option Source) (size : ℕ) where
  -- A round of the `while` loop with what recv_packet gave; `size` is RECV_BUFFER_SIZE and `rest` the next
  -- round.
  pub round : Received × Sock → Source → (Source → Sock → Ended Source Sock) → Ended Source Sock
  round (again, sock) source rest = waiting source sock
  round (failed e, sock) source rest = raised
  round (bytes [], sock) source rest = closed source sock
  round (bytes (c ∷ b), sock) source rest = elim (handle_packet (c ∷ b) source) [
    | none ↦ raised
    | some source' ↦ if ltb (length (c ∷ b)) size then waiting source' sock else rest source' sock
  ]

  pub receive : ℕ → Source → Sock → Ended Source Sock
  receive zero source sock = out_of_fuel
  receive (suc fuel) source sock =
      round (recv_packet sock) source (λ source' sock'. receive fuel source' sock')

  pub handle_event : ℕ → ℕ → Source → Sock → Ended Source Sock
  handle_event fuel eventmask source sock =
      if has_pollin eventmask then receive fuel source sock else waiting source sock

-- The classes of `sources_mapping`.
pub data SourceClass : Type 0 where
  flv mp3_shoutcast adts_shoutcast buffered_raw mpegts : SourceClass

unfoldable pub sources_mapping : Dict Bytes SourceClass
sources_mapping =
    (codes_of "video/x-flv", flv)
    ∷ (codes_of "application/x-flv", flv)
    ∷ (codes_of "audio/mpeg", mp3_shoutcast)
    ∷ (codes_of "audio/mp3", mp3_shoutcast)
    ∷ (codes_of "audio/aacp", adts_shoutcast)
    ∷ (codes_of "audio/aac", adts_shoutcast)
    ∷ (codes_of "application/octet-stream", buffered_raw)
    ∷ (codes_of "video/MP2T", mpegts)
    ∷ (codes_of "video/mpeg", mpegts)
    ∷ []

-- The class that find_source makes a source of; `none` is the UnicodeDecodeError of `decode`.
unfoldable pub find_source : Dict Bytes Bytes → Option SourceClass
find_source headers =
    let content_type : Bytes = (elim (lookup (codes_of "Content-Type") headers) [
      | none ↦ codes_of "application/octet-stream"
      | some t ↦ t
    ]) in
    if is_ascii content_type
    then (elim (lookup content_type sources_mapping) [ none ↦ some buffered_raw | some c ↦ some c ])
    else none
