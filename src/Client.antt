-- ===== src/Client.antt =====
-- client/src/main.rs: the tasks of a client that send and receive audio and messages, and the way it
-- checks the server's certificate.
pub mod Sending
pub mod Receiving
pub mod Messages
pub mod Pinning
pub mod Start
mod Examples
