-- ===== src/Lib.antt =====
-- savate, an HTTP streaming server in Python: a verification of its core.
--
-- A source connects with PUT, SOURCE or POST (or is fetched by a relay), a listener with GET. One
-- event loop calls the handler of each ready descriptor. A request is read (HTTPRequest), goes through
-- the authorization handlers and becomes a source or a client. A source cuts its stream into packets
-- and publishes them to its clients, each of which has an output buffer that is flushed when its socket
-- is ready. Timeouts share one timer descriptor.
--
-- Files and the code they are about:
--   Prelude      helpers on lists, options, numbers and equality tests
--   Dict, Text   Python's dict and the methods of text that the program uses
--   BufferEvent  savate/buffer_event.py, BufferOutputHandler: `flush` and its loop `send_all`
--   BurstQueue   savate/helpers.py, BurstQueue: the last packets, within a number of bytes
--   Timeouts     savate/timeouts.py, Timeouts: keys, their expirations and the timer; IOTimeout with the
--                inactivity timeouts of savate/server.py (Timeouts/Activity)
--   BinaryParser savate/binary_parser.py: big-endian fields in a table
--   Flv          savate/flv.py: the header, tags, video and audio data of FLV
--   FlvSource    savate/flv_source.py, FLVSource: the stages header, tag and tag body; the groups of the
--                burst
--   Sources      savate/sources.py: StreamSource's on-demand states, the raw and fixed-packet sources
--                (Sources/Raw), the receive buffers (Sources/Receive), the loop of handle_event and
--                find_source (Sources/Receiving)
--   AudioParser  savate/audio_parser.pyx, the frame parser, with savate/adts.pyx (Adts) and
--                savate/mp3.pyx and mp3_static.c (Mp3)
--   Shoutcast    savate/shoutcast_source.py: metadata_parse, and the class itself (Shoutcast/Source);
--                savate/clients.py: ShoutcastClient.add_packet_with_metadata (Shoutcast/Client) and
--                find_client with the headers of a client's response (Shoutcast/Client/Headers)
--   Auth         savate/auth.py: Basic authorization, and token authorization up to its TypeError
--   Handlers     savate/helpers.py, HTTPEventHandler, and savate/clients.py, StreamClient: how a client's
--                buffer, timeout and registration go together
--   Http         savate/helpers.py: build_http_headers and HTTPResponse
--   Configuration savate/configuration.py: convert_burst_size, configure_relays (Configuration/Adding) and
--                the relays in reconfigure (Configuration/Reload), and the handlers for authorization, status
--                and statistics that configure and reconfigure load, with reconfigure as a whole
--                (Configuration/Loading)
--   Relay        savate/relay.py, HTTPRelay: its connection, request and response; UDPRelay.handle_event
--                (Relay/Udp); the text of the request (Relay/Selector)
--   Status       savate/status.py: the figures of the JSON page, and the page from a file
--   Looping      savate/looping.py: what IOLoop watches, by register, unregister and inject_event, and a
--                turn of the loop, once (Looping/Once)
--   Server       savate/server.py: HTTPRequest.handle_read (Server/Request), transform_request and
--                TCPServer.register_source (Server/Routing), remove_source and remove_client
--                (Server/Registry), serve_forever with signals, restarts of relays and reloads
--                (Server/Lifecycle), handle_event, which accepts a connection
--                (Server/Accepting); Server/Census counts the clients of all
--                tables. In a turn, the closing of relays comes first, then signals.
-- An object's attributes are a record, a method is a function from the record to the new one, and an
-- exception is a value of the result. Calls on other objects whose order matters are a list of effects.
--
-- Parameters: the socket's `send` and `recv` with what send(2) and recv(2) document, the HTTP parser
-- cyhttp11 and whether a type in its headers can be decoded (Relay), the callbacks of timeouts, what
-- the event loop's handlers do, random.choice, base64, str of numbers, the import of a handler's
-- class; urlparse and getaddrinfo, whether a relay can be made, and, where it only passes through, its
-- request.
--
-- Fuel and bounds: FLVSource.handle_packet has the length of its buffer plus one, each round of its loop
-- taking a byte at least; Timeouts.handle_event has more than the length of the bucket that fires;
-- HTTPRequest.handle_read has 4097, each round reading a byte at least; StreamSource.handle_event and
-- UDPRelay.handle_event have more than the number of packets that the socket has;
-- metadata_parse has twice the length of its buffer plus one, as a round that takes no byte is followed
-- by one that does; add_packet_with_metadata the length of its packet plus two. The frame parser is given
-- any fuel, since its loop need not end. Numbers are Python's, which do not wrap.
--
-- Not modelled: the creation of sockets, the call of poll and the clock, the import of modules that the
-- configuration names, the text of the status pages; system call bindings, start-up and logging, which are
-- input and output only. In Server, the response to a request is its status.
pub mod Prelude
pub mod Dict
pub mod BufferEvent
pub mod BurstQueue
pub mod Timeouts
pub mod BinaryParser
pub mod Flv
pub mod FlvSource
pub mod Sources
pub mod Text
pub mod Auth
pub mod Looping
pub mod AudioParser
pub mod Shoutcast
pub mod Handlers
pub mod Configuration
pub mod Relay
pub mod Http
pub mod Status
pub mod Server
