-- ===== src/Cri/Spdy.antt =====
-- crates/cri/src/spdy.rs: the SPDY/3.1 server transport of the streaming endpoints.
pub mod Words
pub mod Frame
pub mod Nv
pub mod Codec
pub mod Conn
pub mod Server
