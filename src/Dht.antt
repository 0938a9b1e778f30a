-- ===== src/Dht.antt =====
-- toxcore/DHT.c: the parts of the distributed hash table that are modelled.
pub mod SharedKeys
pub mod Nodes
mod Tests
