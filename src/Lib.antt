-- ===== src/Lib.antt =====
-- A model of the transport protocols of hbb_common, the library that a remote desktop's two ends
-- share, and the theorems that make it correct.
--
-- The program. A peer frames packets on a stream (`src/bytes_codec.rs`), or sends messages with a
-- 48-byte header on one of nine channels (`src/transport/protocol.rs`). The payloads of the messages
-- belong to the channels: key, button, wheel and mouse events (`src/transport/input.rs`), clipboard texts
-- (`src/transport/clipboard.rs`), file transfers (`src/transport/file_transfer.rs`), audio packets, which
-- a jitter buffer plays in order (`src/transport/audio_datagram.rs`), and fragments of video frames, which
-- a reassembler joins (`src/transport/video_datagram.rs`). A reliable channel is a stream that starts with
-- its kind (`src/transport/reliable.rs`). What a session may do is negotiated first
-- (`src/transport/session.rs`). On a disconnect, `src/transport/recovery.rs` releases the input that is held, through the input
-- receiver, and paces the attempts to connect again.
--
-- Which file models which part.
-- Common, with its children: the outcomes `Ok`, `Err` and panic of fallible code, lists and
--   tests over the native numbers, big-endian integers in byte strings with reads that panic out of
--   range, `i32`, bit masks, sums that saturate, ordered sets and maps (`BTreeSet`, `BTreeMap`), and
--   UTF-8.
-- Codec: `BytesCodec` with `encode_frame`, `decode_head`, `decode_data` and `decode`.
-- Protocol: `MessageHeader`, `ChannelId`, `MessageType`, `encode_message`, `decode_message` and
--   `decode_header`.
-- Input: `ReliableInputEvent` with its encoding, `MouseMovement` with its datagrams,
--   `ReliableInputReceiver` and `MouseMovementReceiver`.
-- Clipboard: the payload, and `ClipboardState`, whose map of sequence numbers is an association list.
-- FileTransfer: the payloads, and `FileTransferReceiver` over an interface `Sha256`.
-- Recovery: `ReconnectState`.
-- Audio: the packets as datagrams, and `AudioJitterBuffer`, a method to a function: `push`,
--   `pop_ready`, `evict_oldest`, `discard_expired`, `state` and `reset`. Stored, Push, Playout and Room
--   are about its state, Verdict, Span and Answer about what a push answers, and Run about calls in any
--   order.
-- Video: `fragment_video_frame` and the payload of a fragment (Fragment), the `VideoReassembler` and
--   what drops frames (Reassembler), and its `push` in two halves (Push, and Settle from the fragment that
--   is put into its frame on). Valid to Opened are about its state, Run, Delivery and Exact about calls in
--   any order, Sent and Original about a frame's way from the sender to the receiver.
-- Reliable: `ReliableChannelKind`, the preface of a reliable stream, and `send_reliable` and
--   `receive_reliable`.
-- Session: `SessionOffer`, `SessionAgreement`, `negotiate_session` (Negotiate) and the checks of both (Types
--   and Agreement).
-- A child module Tests runs the code on examples and applies each theorem at one.
--
-- Correspondence. A byte string is a list of numbers below 256, and where a theorem needs that bound
-- it says so. A fixed-width integer is a natural number, with its wrap-around or saturation written
-- out where the code has it. A method that changes `self` returns the new state with its result; one that
-- changes nothing when it fails returns no state with an error. An enumeration's number is a function
-- of its own, as `channel_code` is for `channel as u8`. A `String` is the list of the bytes of its
-- UTF-8, and a `Duration` or an `Instant` is its number of nanoseconds. A `BTreeMap` is the list of its
-- entries in ascending order. Loops are recursion on lists, but for two `while` loops that evict
-- packets or frames and run on the fuel of as many rounds as there are packets or frames, each of which an
-- eviction makes fewer, and for `chunks` on the fuel of the length, which every piece makes less. A
-- `usize` is 64 bits wide; the theorems on buffers ask for memory limits below 2^64 - 1, since
-- `saturating_add` cannot tell a sum beyond that.
--
-- The `BytesMut` of the crate `bytes` is a list too: `advance` and `split_to` drop and take bytes at its
-- front, and panic past its end.
--
-- Parameters. The SHA-256 of the crate `sha2` is an interface, with the laws that feeding a hasher in
-- pieces is feeding it at once and that feeding it nothing changes nothing. The streams of the crate
-- `quinn` are an interface, `Reliable.Stream.Streams`, with the laws that a write that succeeds appends
-- its bytes, and that the bytes that are next on a stream are read.
--
-- Not modelled: the rate limiter of file transfers, which computes with floating point; the payloads of
-- session negotiation, opening a reliable channel, adaptation, pairing, configuration and the QUIC transport
-- under `src/transport`; the sockets, streams and TLS of the rest of `src`, which are input and output;
-- generated code.
pub mod Common
pub mod Codec
pub mod Protocol
pub mod Input
pub mod Recovery
pub mod Audio
pub mod Video
pub mod Reliable
pub mod Session
pub mod Clipboard
pub mod FileTransfer
