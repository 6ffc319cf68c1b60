-- ===== src/Rtmp/RawMessage.antt =====
-- internal/protocols/rtmp/rawmessage: messages split into chunks and joined again.
pub mod Message
pub mod Reader
pub mod Writer
pub mod Progress
pub mod Written
pub mod Rounds
pub mod Receiving
pub mod Delivery
pub mod First
pub mod Begun
pub mod Synced
pub mod Chosen
pub mod RoundTrip
