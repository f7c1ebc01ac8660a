-- ===== src/Protocol.antt =====
-- pkg/protocol: the frame that every message travels in.
pub mod Wire
