-- ===== src/Queue.antt =====
-- The write-ahead log and the queue of tasks that stands on it (infra/storage/task-queue-wal.ts,
-- task-queue-service.ts).
pub mod Crc
pub mod Wal
pub mod Service
mod Tests
