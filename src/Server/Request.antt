-- ===== src/Server/Request.antt =====
-- savate/server.py: HTTPRequest.handle_read. The socket and the HTTP parser, cyhttp11, are parameters.
pub mod Reading
use savate.Prelude.{
  Bool, Bytes, [], if◌then◌else◌, is_empty, leb, length, suc, zero, ℕ, ◌++◌, ◌+◌, ◌-◌, ◌≤◌,
}

abbrev pub request_max_size : ℕ
request_max_size = 4096

-- What `recv` gives: bytes, EAGAIN, which `handle_eagain` turns into None, or another IOError.
pub data Received : Type 0 where
  bytes : Bytes → Received
  again : Received
  failed : ℕ → Received

abbrev pub received : Received → Bytes
received (bytes b) = b
received again = []
received (failed e) = []

-- A non-blocking socket, as recv(2) documents it: at most as many bytes as asked for.
pub record Peer : Type 1 where
  pub State : Type 0
  pub recv : State → ℕ → Received × State
  pub recv_bound : (s : State) (n : ℕ) → length (received (recv s n).0) ≤ n

-- The HTTP parser: it is given the whole text read so far each time.
pub record Parser : Type 1 where
  pub State : Type 0
  pub execute : State → Bytes → State
  pub has_error : State → Bool
  pub is_finished : State → Bool

-- How a call ends. `finished` goes on to transform_request.
pub data Outcome : Type 0 where
  waiting finished unexpected_end invalid oversized out_of_fuel : Outcome
  io_error : ℕ → Outcome

module _ (peer : Peer) (http : Parser) where
  pub record HttpRequest : Type 0 where
    pub request_buffer : Bytes
    pub request_size : ℕ
    pub request_parser : http.State
    pub sock : peer.State

  -- The request with the bytes of one `recv`, which leaves the socket in state `s`.
  pub take_in : HttpRequest → Bytes → peer.State → HttpRequest
  take_in r tmp_buffer s =
      let buffer = r.request_buffer ++ tmp_buffer in
      record {
        request_buffer = buffer;
        request_size = r.request_size + length tmp_buffer;
        request_parser = http.execute r.request_parser buffer;
        sock = s;
      }

  -- The tests after a `recv`; `rest` is the next round of the loop.
  pub judge : HttpRequest → Outcome × HttpRequest → Outcome × HttpRequest
  judge r rest =
      if http.has_error r.request_parser
      then (invalid, r)
      else if http.is_finished r.request_parser
      then (finished, r)
      else if leb request_max_size r.request_size
      then (oversized, r)
      else rest

  -- What follows a `recv`.
  pub after_recv :
      HttpRequest → Received → peer.State → Outcome × HttpRequest → Outcome × HttpRequest
  after_recv r again s rest = (waiting, record r { sock = s })
  after_recv r (failed e) s rest = (io_error e, record r { sock = s })
  after_recv r (bytes b) s rest =
      if is_empty b then (unexpected_end, record r { sock = s }) else judge (take_in r b s) rest

  pub read : ℕ → HttpRequest → Outcome × HttpRequest
  read zero r = (out_of_fuel, r)
  read (suc fuel) r =
      let (reply, s) = peer.recv r.sock (request_max_size - r.request_size) in
      after_recv r reply s (read fuel (take_in r (received reply) s))

  -- Each round of the loop reads a byte at least.
  pub handle_read : HttpRequest → Outcome × HttpRequest
  handle_read r = read (suc request_max_size) r
