-- ===== src/Queue.antt =====
-- The queue's contract and the in-process queue: src/gateway/queue/base.py and memory.py,
-- and the other transport, pubsub.py.
pub mod NoLoss
pub mod PubSub
mod Base
mod Memory
unfoldable pub use Base.*
unfoldable pub use Memory.*
