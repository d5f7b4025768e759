-- ===== src/Netlayer.antt =====
-- The netlayer package: netlayer/stream.go, netlayer/server.go and netlayer/client.go.
pub mod Stream
pub mod Server
pub mod Client
