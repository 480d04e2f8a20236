-- ===== src/Lib.antt =====
-- A model of voicemcu, a voice chat: clients send Opus frames to a server, which keeps them in
-- rooms, orders their frames, mixes them and relays the signaling between them.
--
-- The parts, and the files that model them:
--
-- - Base: lists, words of 32 and 64 bits, bytes, results, maps as association lists. The other
--   parts stand on it.
-- - Jitter: common/src/jitter.rs, the jitter buffer over any type of frame. Sequence numbers wrap
--   at 2^32. Jitter/View reads a buffer as a window of numbers with the frame due at each, and
--   Jitter/Insert and Jitter/Playout relate the operations to that reading.
-- - Protocol: common/src/protocol.rs, common/src/error.rs and `frame_signal` of
--   server/src/main.rs: messages, the header of an audio datagram, and the frames of the signaling
--   stream over a list of bytes. The encoding of a message (postcard) is a parameter, of which a
--   round trip is assumed where it is used.
-- - RateLimit: `TokenBucket` and `accept_loop` of server/src/main.rs. Tokens are counted in units
--   of 10^-9 and time in nanoseconds, exactly, where the code has f64.
-- - Config: server/src/config.rs, and Config/Client: client/src/config.rs. Reading and parsing a
--   file is a parameter; an f32 is its bits.
-- - Server: server/src/room.rs and the handlers of server/src/main.rs. `Server`, `Room` and
--   `ClientState` are records, a map is an association list, an atomic is its value. What a handler
--   sends is a list of `Output`. Server/Input is `sanitize_input`, Server/Session is
--   `handle_connection`, Server/Signaling is `handle_signaling`. Server/Invariant says what holds
--   between handlers, and its children show that each handler keeps it; Server/Joins,
--   Server/Membership and Server/Moderation say what the handlers do. There a handler is one step;
--   Server/Interleaving has the join as a task of eight phases, and its children say what holds, and
--   what fails, when stretches of several joins, messages, departures and cleanups interleave.
--   Server/Life is `main` and `shutdown`, with the handlers one after another in between.
-- - Tui: client/src/tui.rs: the roster and the log of a client, the messages that it handles, and
--   its commands (Tui/Commands), its keys and event loop (Tui/Loop), and what is drawn of it (Tui/View);
--   Tui/Text is what these use of strings. How ratatui splits the terminal is left out of a drawing.
-- - Audio: common/src/audio.rs: level, mixing and clipping of frames of samples. f32 is a parameter.
-- - Codec: common/src/codec.rs: the Opus encoder and decoder. audiopus is a parameter: its coders are
--   opaque states, and what is documented of them is assumed where it is used: in Codec/Encoding that a
--   packet fits the slice that it is written to, in Codec/Rates what a set rate becomes, for rates
--   that the library does not clamp. Codec/Examples has a coder of which both hold.
-- - Mix: `recv_datagrams` and `room_mix_loop` of server/src/main.rs: the channels of packets and what
--   comes in from them, and in Mix/Tick a turn of the loop. Mix/Tick/Heard and Mix/Tick/Hearing say what
--   a tick sends, Mix/Drain, Mix/Invariant and Mix/Tick/Invariant what is kept, Mix/Tick/Runs what holds
--   over runs. Mix/Tick/Delivery follows the datagrams to one listener, with Mix/Tick/Numbering,
--   Mix/Tick/Others and Mix/Tick/Streams for its steps.
-- - Certificates: server/src/tls.rs: the server's certificate, from disk or made anew, and its
--   fingerprint. The disk, rustls, rcgen and ring are parameters.
-- - Client: client/src/main.rs. Client/Pinning says which certificates are accepted, Client/Messages is
--   the handshake and the tasks that carry messages, Client/Sending the two loops that send audio,
--   Client/Receiving the loop that receives and plays it. Client/Start is `main`, from the command line
--   to the end of a session. The rings between threads, QUIC, rustls and the terminal are parameters.
-- - Devices: client/src/audio_io.rs: channels, the resampler and the callbacks of the two streams. The
--   position of the resampler is a whole number of units of one part in the output rate, exactly,
--   where the code has an f64 that rounds: at the end of a chunk the code can put out a sample more
--   or less than the model. Devices/Opening is the choice of the
--   devices and the opening of the pipeline; the machine (cpal) is a parameter.
--
-- A client's commands are the messages that Server/Signaling handles, and the lists that the server
-- builds of a room are what a client's roster is made of. The handlers of Server leave commands for
-- Mix, which reads the rooms of Server, keeps a jitter buffer and two coders for each client and
-- sends datagrams of Protocol; Client/Receiving reads them into a jitter buffer of its own. The
-- buckets of RateLimit stand before the joins and before each message. Config bounds the sizes that
-- Jitter and Server rely on. What Certificates prints is what Client/Pinning is given.
--
-- Bounds and fuel: `show_digits` writes at most the 20 digits that a u64 has. `encode_loop` has fuel
-- for three rounds, as its counter of attempts ends it at 2. `pop_all` has one more round than the
-- buffer has slots, as each pop that goes on empties one. `listen` has one more than the stream has
-- bytes, as each message takes some; `resample` one more than the input is long in its units, as each
-- round moves the position; `chunks_exact` one for each sample. The counter of client ids wraps at
-- 2^64, as in the code; what is stated of runs of the server is stated while it does not wrap.
--
-- Joins interleave in Server/Interleaving between any two of their accesses to what the handlers share:
-- the guard of a room's entry, which a stretch holds, is let go in between, but for the one between
-- the insertion of the client and the claim of the host. While a join holds that one, a join that is
-- to make or find the entry of the same room waits, and so does the cleanup of the room; that rooms
-- of one shard of the map wait for each other too is left out. A message, a departure and the cleanup of
-- one room are one step there. An atomic is its value, without the orders of memory, and the threads
-- of the client meet only in the rings.
--
-- Not modelled: logging and the log file, the parsing of the command line (clap), the panic hook and
-- raw mode of the terminal, the timers that make ticks and cleanups happen, and what the libraries
-- do inside: QUIC, TLS, Opus, devices, the rendering of widgets. The tests of the source are used as
-- inputs of tests here.
pub mod Base
pub mod Jitter
pub mod Protocol
pub mod Audio
pub mod Certificates
pub mod Client
pub mod Codec
pub mod Devices
pub mod RateLimit
pub mod Config
pub mod Server
pub mod Mix
pub mod Tui
