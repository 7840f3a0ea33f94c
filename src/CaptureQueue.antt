-- ===== src/CaptureQueue.antt =====
-- capture_queue.py: captures that wait in a file for a backend.
pub mod Bundles
pub mod Replay
pub mod Flush
pub mod File
