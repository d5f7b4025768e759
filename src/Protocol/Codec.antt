-- ===== src/Protocol/Codec.antt =====
-- protocol/codec.go: frames of one type byte, a length in four bytes, and a JSON payload.
-- A reader is the list of the bytes that are still to come; a read takes what it needs from it.
pub mod Bytes
pub mod Parse
pub mod Frame
pub mod RoundTrip
pub mod Safety
