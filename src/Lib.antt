-- ===== src/Lib.antt =====
-- The Rust SDK of manka-shreds: a client that connects to a node, authenticates it, and decodes the
-- stream of frames that the node sends (rust/src).
--
-- The parts, from the bottom up. A frame body arrives as bytes; the readers (rust/src/protocol.rs,
-- rust/src/events.rs, rust/src/transaction.rs) turn it into a value or an error. The client
-- (rust/src/client.rs) cuts the byte stream into frames, decompresses and dispatches them, answers
-- pings and counts gaps. The handshake (rust/src/handshake.rs) makes and checks the proofs with which
-- both sides show that they hold the key, bound to the certificate of the session
-- (rust/src/transport.rs). The cache (rust/src/dictcache.rs) keeps the dictionaries that nodes have
-- sent in a directory: `connect` offers the newest one, and stores what it is sent.
--
-- Where what is modelled:
--   Error             rust/src/error.rs: Error and Result. A third outcome, `panic`, is what an index
--                     out of range or a failed `expect` does, so that its absence can be stated.
--   Bytes             the reads that index and slice: require, u16_at, u32_at, u64_at, try_into
--   Utf8              String::from_utf8_lossy of Rust's standard library, for the texts of messages
--   Handshake         rust/src/handshake.rs: KeyRef, ChannelBinding, Proof, Transcript
--   Protocol          rust/src/protocol.rs, a module for each type: Codes (Codec, ErrorCode,
--                     Verification), Kinds (FrameKind), Header (read_frame_header, write_frame),
--                     FilterMask, StreamMask, Capabilities, Dictionary, Hello, Challenge, Prove,
--                     HelloAck, ErrorMessage, Lag, FilterAck
--   Events            rust/src/events.rs, a module for each frame body
--   Transaction       rust/src/transaction.rs: Transaction::read, and its accessors in Fields (the
--                     header) and Access (the sections)
--   Radix             from_str_radix of Rust's standard library, in base 16
--   Transport         rust/src/transport.rs: ServerVerification, PinnedServer, fingerprint_of,
--                     Wire::channel_binding; Opening connect_tcp and connect_quic; Reading
--                     Wire::read_buf and write_all
--   DictionaryCache   rust/src/dictcache.rs: load, store, newest, entries and prune; Files is the
--                     directory as std::fs shows it, with touch; Threads the steps of store and load
--                     of several threads as a relation; Location default_dir
--   Client.Config     rust/src/client.rs: Config, its builder methods (named with_ where a field has
--                     the method's name), default_server_name
--   Client.Wire       rust/src/client.rs: read_frame, and the stream as a list of reads to come
--   Client.Json       rust/src/client.rs: escape_json, filters_json
--   Client.Session    rust/src/client.rs: Client::next_event, ping, set_filter, set_filters; Access
--                     the accessors; Dropped what is left of a call that is dropped in a read;
--                     Draining the loop over next_event of rust/src/lib.rs
--   Client.Connect    rust/src/client.rs: Client::connect, from the open stream on; Caching with the
--                     cache it reads and writes
--   Client.Opening    rust/src/client.rs: Client::connect from the name of the node on, which calls
--                     Client.Connect; connect of rust/src/lib.rs
-- The other child modules hold proofs about their parent.
--
-- Bytes and machine words are natural numbers. A wrap-around is written out (% 2 ^ 64), as in a build
-- without overflow checks; `usize` has 64 bits. A struct that borrows a slice holds the bytes of it.
-- A method that takes `&mut self` returns its result beside the new client.
--
-- Loops are structural recursion, `read_frame` on the reads that the stream has yet to deliver; the
-- loops over tables and indices on the number of rounds left. `from_utf8_lossy` takes as fuel the
-- number of bytes, of which every round uses up at least one; the digits of a decimal number as many
-- rounds as one more than the number. The loop over `next_event` takes a number of calls; more than a
-- sixteenth of the bytes to come are enough, as every event takes sixteen bytes or more.
--
-- Every call to the file system takes one answer from a list in the state of the directory: done,
-- refused, or, for a write, broken off behind some bytes. So a theorem for every directory is one for
-- every way in which the calls fail. The clocks are functions of the number of calls made.
--
-- Code of other packages is a parameter: SHA-256 and HMAC-SHA-256 (functions on byte strings), the
-- zstd decompressor (at most as many bytes as its last argument, or nothing), the sort by the last use,
-- the test for an IP address, the environment and the joining of paths, the growth of a Vec. What tokio,
-- quinn and rustls answer while a stream is opened is a `Network`. What the transport delivers, and how
-- it answers each write, is the state of a `Wire`; Transport.Reading says what a read of quinn or tokio
-- is to it. A read that times out is a failure of the stream.
--
-- Not modelled: the random nonce, the text of error messages, the signature schemes that the verifier
-- offers, the accessors of DictionaryCache, the re-exports of rust/src/lib.rs, the SDKs in Python and
-- TypeScript, and a call that is dropped elsewhere than in a read.
pub mod Common
pub mod Error
pub mod Bytes
pub mod Utf8
pub mod Handshake
pub mod Protocol
pub mod Events
pub mod Transaction
pub mod Radix
pub mod Transport
pub mod DictionaryCache
pub mod Client
pub mod Tests
