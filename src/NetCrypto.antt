-- ===== src/NetCrypto.antt =====
-- toxcore/net_crypto.c: the packet arrays of a crypto connection, and the packets by which a peer
-- requests what it has not received.
pub mod PacketsArray
pub mod Nonce
pub mod Request
pub mod Connection
pub mod Delivery
mod Tests
