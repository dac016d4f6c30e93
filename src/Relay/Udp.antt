-- ===== src/Relay/Udp.antt =====
-- savate/relay.py, UDPRelay.handle_event: datagrams are gathered until there are enough of them to start
-- a source. The socket is a parameter; the relay's first registration and its multicast request are
-- left out.
pub mod Starting
mod Examples
use savate.Prelude.{
  Bytes, List, Option, [], codes_of, if◌then◌else◌, leb, length, none, some, suc, zero, ℕ, ◌*◌,
  ◌++◌, ◌^◌, ◌∷◌,
}
use savate.Dict.{Dict}
use savate.Sources.Receiving.{SourceClass, find_source}
use savate.Server.Request.{Received, again, bytes, failed}
use savate.Relay.{has_pollin}

abbrev pub min_start_buffer : ℕ
min_start_buffer = 64 * 2 ^ 10

-- A key of a parser's headers, in bytes or a str. The two kinds are never equal.
pub data HeaderName : Type 0 where
  in_bytes in_str : Bytes → HeaderName

-- The headers that a name in bytes can find.
pub by_bytes : List (HeaderName × Bytes) → Dict Bytes Bytes
by_bytes [] = []
by_bytes ((in_bytes k, v) ∷ hs) = (k, v) ∷ by_bytes hs
by_bytes ((in_str k, v) ∷ hs) = by_bytes hs

-- `fake_response_parser.headers`
pub fake_headers : List (HeaderName × Bytes)
fake_headers = (in_str (codes_of "Content-Type"), codes_of "video/MP2T") ∷ []

-- How an event ends: the relay waits with the data it has, `add_source` gets a body and a class of source,
-- or there is an exception.
pub data Ended (Sock : Type 0) : Type 0 where
  waits : Bytes → Sock → Ended Sock
  new_source : SourceClass → Bytes → Sock → Ended Sock
  raised out_of_fuel : Ended Sock

pub start : {Sock : Type 0} → Option SourceClass → Bytes → Sock → Ended Sock
start none body sock = raised
start (some c) body sock = new_source c body sock

module _ {Sock : Type 0} (recv : Sock → Received × Sock) where
  -- A round of the loop with what the socket gave; `rest` is the next round.
  pub round : Received × Sock → Bytes → (Bytes → Sock → Ended Sock) → Ended Sock
  round (again, sock) data_so_far rest = waits data_so_far sock
  round (failed e, sock) data_so_far rest = raised
  round (bytes b, sock) data_so_far rest =
      let initial_buffer_data = data_so_far ++ b in
      if leb min_start_buffer (length initial_buffer_data)
      then start (find_source (by_bytes fake_headers)) initial_buffer_data sock
      else rest initial_buffer_data sock

  pub receive : ℕ → Bytes → Sock → Ended Sock
  receive zero data_so_far sock = out_of_fuel
  receive (suc fuel) data_so_far sock = round (recv sock) data_so_far (λ d k. receive fuel d k)

  pub handle_event : ℕ → ℕ → Bytes → Sock → Ended Sock
  handle_event fuel eventmask initial_buffer_data sock =
      if has_pollin eventmask
      then receive fuel initial_buffer_data sock
      else waits initial_buffer_data sock
