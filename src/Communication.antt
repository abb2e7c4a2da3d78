-- ===== src/Communication.antt =====
-- communication/: the wire format of requests and replies.
pub mod Types
pub mod Message
pub mod TlvView
pub mod MessageQueue
