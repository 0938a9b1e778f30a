-- ===== src/NetCrypto/Delivery.antt =====
-- toxcore/net_crypto.c: two peers of a connection, and the lossless packets from one to the other.
pub mod Wire
pub mod Sender
pub mod Sending
pub mod Receiver
pub mod Taker
pub mod Taking
pub mod Giver
pub mod Writing
pub mod Giving
pub mod Acts
pub mod Agree
pub mod Runs
mod Tests
