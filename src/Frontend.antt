-- ===== src/Frontend.antt =====
-- signaling/src, the HTTP front end in Go: it makes a request of a form, sends it to a media server
-- over TCP, and answers with the offer that comes back.
pub mod Outcome
pub mod Header
pub mod Streams
pub mod Packets
pub mod Selector
pub mod Client
pub mod Text
pub mod Xrpc
pub mod Push
pub mod Journey
