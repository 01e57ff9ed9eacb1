-- ===== src/Worker.antt =====
-- apps/worker/src: the processors, the dispatch of the queue's consumer, and the cleanup sweeps.
pub mod Platform
pub mod Processors
pub mod Config
pub mod Queue
pub mod Consumer
pub mod Cleanup
