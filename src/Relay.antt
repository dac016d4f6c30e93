-- ===== src/Relay.antt =====
-- savate/relay.py, HTTPRelay: a connection to another server that is asked for a stream. The two
-- directions of its socket are parameters, as are the HTTP parser and the request, whose text is that
-- of Relay/Selector. `handle_response` reads as HTTPRequest.handle_read does, with the same limit of 4096 bytes.
pub mod Asking
pub mod Reconnecting
pub mod Udp
pub mod Selector
mod Examples
use savate.BufferEvent
use savate.Server.Request
use savate.BufferEvent.{
  BufferOutputHandler, Flushed, Socket, empty, flush, flushed, io_error, queue_size_exceeded,
}
use savate.Server.Request.{
  HttpRequest, Outcome, Parser, Peer, finished, handle_read, invalid, out_of_fuel, oversized,
  unexpected_end, waiting,
}
use savate.Prelude.{
  Bool, Bytes, List, Option, [], false, if◌then◌else◌, none, some, true, ℕ, ◌%◌, ◌&&◌, ◌==◌, ◌||◌,
  ◌∷◌,
}
use savate.Handlers.{has_pollout, pollout}

-- The method that `handle_event` is.
pub data Handling : Type 0 where
  handle_connect_next handle_request_next handle_response_next : Handling

-- eventmask & POLLIN
unfoldable pub has_pollin : ℕ → Bool
has_pollin eventmask = eventmask % 2 == 1

abbrev pub pollin : ℕ
pollin = 1

abbrev pub einprogress : ℕ
einprogress = 115

-- `undecodable` says whether find_source cannot decode the Content-Type of a response, and raises.
module _ (sock : Socket) (peer : Peer) (http : Parser) (status_code : http.State → ℕ)
    (undecodable : http.State → Bool) (new_parser : http.State) (request : Bytes) where
  pub record HttpRelay : Type 0 where
    pub handling : Handling
    pub socket : sock.State
    pub output_buffer : BufferOutputHandler
    -- response_buffer, response_size and response_parser, with the socket to read from
    pub response : HttpRequest peer http
    -- the mask that the loop has for the relay; a source takes its place
    pub watched : Option ℕ
    pub inactivity : Bool
    pub on_demand : Bool
    pub od_source : Bool

  -- How an event ends. What is raised goes to the event loop, which closes the relay.
  pub data Ended : Type 0 where
    stays new_source reconnected closed raised no_end : HttpRelay → Ended

  -- `connect`: create_socket with connect_ex's answer, and register.
  unfoldable pub connect : ℕ → sock.State → peer.State → HttpRelay → Ended
  connect error out inp r =
      if error == 0 || error == einprogress
      then stays (record r {
        socket = out;
        response = record r.response { sock = inp };
        watched = some pollout;
        inactivity = true;
      })
      else raised r

  -- A relay as `__init__` has it before it connects. Its buffers come later.
  unfoldable pub init : Bool → sock.State → peer.State → HttpRelay
  init on_demand out inp = record {
    handling = handle_connect_next;
    socket = out;
    output_buffer = BufferEvent.init [];
    response = record {
      request_buffer = [];
      request_size = 0;
      request_parser = new_parser;
      sock = inp;
    };
    watched = none;
    inactivity = false;
    on_demand = on_demand;
    od_source = false;
  }

  -- handle_request after its flush, whose exceptions it does not catch
  after_flush : Flushed → HttpRelay → Ended
  after_flush (queue_size_exceeded n) r = raised r
  after_flush (io_error e) r = raised r
  after_flush (flushed n) r =
      if empty r.output_buffer
      then stays (record r {
        handling = handle_response_next;
        response = record {
          request_buffer = [];
          request_size = 0;
          request_parser = new_parser;
          sock = r.response.sock;
        };
        watched = some pollin;
      })
      else stays r

  pub handle_request : ℕ → HttpRelay → Ended
  handle_request eventmask r =
      let f = flush sock r.output_buffer r.socket in
      if has_pollout eventmask
      then after_flush f.result (record r { output_buffer = f.handler; socket = f.socket })
      else stays r

  -- `so_error` is what getsockopt gives.
  pub handle_connect : ℕ → ℕ → HttpRelay → Ended
  handle_connect eventmask so_error r =
      if has_pollout eventmask
      then (if so_error == 0
          then handle_request eventmask (record r {
            output_buffer = BufferEvent.init (request ∷ []);
            handling = handle_request_next;
          })
          else raised r)
      else stays r

  -- `close`, up to that of the source.
  pub close : HttpRelay → HttpRelay
  close r = record r { watched = none; inactivity = false }

  pub transform_response : HttpRelay → Ended
  transform_response r =
      if status_code r.response.request_parser == 200
      then (if r.on_demand && r.od_source
          then reconnected (record r { watched = none })
          else if undecodable r.response.request_parser
          then raised r
          else new_source (record r { watched = none; od_source = r.on_demand }))
      else closed (close r)

  after_read : Outcome → HttpRelay → Ended
  after_read waiting r = stays r
  after_read finished r = transform_response r
  after_read unexpected_end r = raised r
  after_read invalid r = raised r
  after_read oversized r = raised r
  after_read (Request.io_error e) r = raised r
  after_read out_of_fuel r = no_end r

  pub handle_response : ℕ → HttpRelay → Ended
  handle_response eventmask r =
      let (o, response) = handle_read peer http r.response in
      if has_pollin eventmask then after_read o (record r { response = response }) else stays r

  pub handle_event : ℕ → ℕ → HttpRelay → Ended
  handle_event eventmask so_error r = elim r.handling [
    | handle_connect_next ↦ handle_connect eventmask so_error r
    | handle_request_next ↦ handle_request eventmask r
    | handle_response_next ↦ handle_response eventmask r
  ]

  -- Events with what getsockopt gives at each, until one ends the relay's waiting.
  pub run : List (ℕ × ℕ) → HttpRelay → Ended
  run [] r = stays r
  run ((eventmask, so_error) ∷ events) r = elim (handle_event eventmask so_error r) [
    | stays r' ↦ run events r'
    | new_source r' ↦ new_source r'
    | reconnected r' ↦ reconnected r'
    | closed r' ↦ closed r'
    | raised r' ↦ raised r'
    | no_end r' ↦ no_end r'
  ]
