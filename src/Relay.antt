-- ===== src/Relay.antt =====
-- pkg/relay/queue.go: the queue of packets to relay, and the table of hops that wait for an ACK.
pub mod Queue
pub mod Hops
