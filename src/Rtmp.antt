-- ===== src/Rtmp.antt =====
-- internal/protocols/rtmp: the transport of RTMP messages.
pub mod Bytes
pub mod Chunk
pub mod RawMessage
pub mod Error
pub mod Amf
pub mod Codec
pub mod Link
pub mod Media
pub mod Extended
pub mod Control
mod Examples
