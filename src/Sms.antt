-- ===== src/Sms.antt =====
-- The SMS codec.
pub mod Gsm7
pub mod Septets
pub mod UserData
pub mod Chunks
pub mod Address
pub mod Submit
pub mod Deliver
pub mod Commands
mod Tests
mod DeliverTests
