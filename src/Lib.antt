-- ===== src/Lib.antt =====
-- Verification of RustDesk-Enhanced, a remote desktop engine: the path that a peer's bytes take
-- from the socket to an action on the controlled machine, and the VNC protocol beside it.
--
-- The parts and how they interact. A connection is a stream of bytes cut into records by a length
-- prefix (Codec). The two ends first agree on a record key or on a plain connection (Handshake),
-- and then seal every record under a counter (Cipher). A viewer that logs in is checked by the
-- host: password, approval, second factor, and the permissions that it is granted (Auth); Session
-- is the state that each side keeps around that exchange, until the wire goes to the media over
-- Transport. What the viewer then sends as pointer and key events is decoded into actions, or
-- dropped (Input). A VNC connection speaks the RFB protocol instead (Vnc).
--
-- Which file models which part:
-- - Prelude: tests on native numbers, lists, options and results, two's-complement integers (Int),
--   and bit masks as arithmetic (Bits).
-- - Messages: the records of libs/hbb_common/protos/message.proto that several parts read.
-- - Codec: libs/hbb_common/src/bytes_codec.rs. The record BytesCodec is the struct; decode and
--   encode are its methods, each match a function of its own. Codec/Header, RoundTrip and Stream
--   hold the proofs on one header, one frame and a stream cut into chunks.
-- - Cipher: Encrypt and get_nonce of libs/hbb_common/src/tcp.rs; enc and dec return the new
--   counters. Cipher/Records is a stream of records; Cipher/Toy a stand-in for the library.
-- - Handshake: crates/rd-engine/src/handshake.rs. Wire is a FramedStream; Handshake/Sides has
--   viewer and host, a function per match; Pinned and Agreement hold the proofs.
-- - Auth: crates/rd-engine/src/authentication.rs. Auth/Types has the data, Credentials the
--   password response, Machine the methods of HostAuth as functions from state to state, run a
--   sequence of them. Outcomes, Invariant, Moves, Evidence and Decisions hold the proofs.
-- - Session: crates/rd-engine/src/session.rs. SessionIo and what both sides share is in Session;
--   Viewer and Dispatch have ViewerSession, Host has HostSession, whose login is the HostAuth of
--   Auth. ViewerHistory and HostHistory are sequences of calls; the other files hold the proofs,
--   Agreement those on both sides together and Arrivals those on the records that are still to be
--   read.
-- - Transport: crates/rd-engine/src/transport.rs. Connection holds the WireReader and the
--   WireWriter of one wire, send and recv are their methods; Transport/Delivery has the proof.
-- - Version: get_version_number of libs/hbb_common/src/lib.rs. Text: the parsing of numbers,
--   splitting and trimming that the sources take from Rust's library.
-- - Input: crates/rd-engine/src/input.rs. decode_mouse is in Input, decode_key and decode_message
--   in Keys, the virtual keys in ControlKeys, VirtualKeys and WindowsKeys, normalize_absolute in
--   Desktop; Flutter is crates/rd-engine/src/flutter_input.rs. Meaning, KeyMeaning and
--   Flutter/Sends hold the proofs.
-- - Vnc: crates/rd-engine/src/vnc/protocol.rs. Pixel is PixelFormat, Client the encoders, Update
--   the decoders over the bytes that the reader will give; Codes, PixelBounds, PixelFormats,
--   RoundTrip, Stream and Requests hold the proofs.
-- - Vnc/Session, Banner and Messages: VncSession of crates/rd-engine/src/vnc/mod.rs, its version
--   banner and its messages after the connection; Negotiation, Connected, Running and BannerText
--   hold the proofs.
-- - Vnc/Des and DesTables: crates/rd-engine/src/vnc/auth.rs; DesTests has published vectors.
-- - Vnc/Frame: apply_rectangles of crates/rd-engine/src/vnc/live.rs and what draws each rectangle;
--   FrameBounds has the proof.
--
-- Conventions. A byte is a number below 256 where a theorem needs it; usize has 64 bits;
-- arithmetic that can wrap is written with its modulus. An i32 is an integer of Prelude/Int.
-- Errors are values without their texts. Asynchronous code is the sequence of its steps; a write
-- or a read that fails is an outcome, and so is a write that its caller gives up, at a deadline or
-- because the call is dropped (Fate in Handshake). A viewer session whose call is dropped in a
-- write is taken to be closed; a host session is left as it is then. No definition needs fuel
-- except the reader of Codec/Stream, which takes the number of bytes left, and every frame takes
-- at least one.
--
-- What is a parameter: sodiumoxide (the record Sodium in Cipher, with the laws that what is sealed
-- opens and what is signed verifies), SHA-256 and the constant-time comparison (Auth/Credentials),
-- the providers of one-time codes and approvals (Auth/Types), the serialization of an identity
-- (Suite in Handshake), serde_json (Json in Input/Flutter), from_utf8_lossy (Utf8 in Vnc/Banner),
-- protobuf (Protobuf in Transport) and the serialized size of a message (Session).
--
-- What is not modelled: the media of a session after the hand-over, the rendezvous code, bitrate
-- control, file transfer, configuration, the reader thread of a VNC session, and the code that
-- only calls a platform, a codec or a generated bridge. A call that waits is handed the instants
-- of its start and of the record that it waits for; the code reads no other clock.
pub mod Prelude
pub mod Text
pub mod Version
pub mod Messages
pub mod Codec
pub mod Auth
pub mod Session
pub mod Transport
pub mod Input
pub mod Vnc
pub mod Cipher
pub mod Handshake
