-- ===== src/Ring.antt =====
-- src/ring.rs.
pub mod Area
pub mod Copy
pub mod Window
pub mod Encoding
pub mod State
pub mod Sender
pub mod Receiver
pub mod Framed
pub mod Queue
pub mod Linked
pub mod Send
pub mod Recv
pub mod Racing
pub mod Run
pub mod Blocking
pub mod Steps
pub mod Tests
