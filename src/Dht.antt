-- ===== src/Dht.antt =====
-- pkg/dht: keys and their distance, the routing table, the store of values and the RPC handlers.
pub mod Key
pub mod Bucket
pub mod Table
pub mod Store
pub mod Rpc
