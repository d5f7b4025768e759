-- ===== src/Protocol.antt =====
-- The wire protocol: protocol/message.go, protocol/codec.go and protocol/json.go.
pub mod Msg
pub mod FileType
pub mod Message
pub mod Json
pub mod Codec
