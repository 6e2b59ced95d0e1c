-- ===== src/Benchmark.antt =====
-- packages/replayor/benchmark.go
pub mod Batch
pub mod Enrich
pub mod AddBlock
pub mod Replayed
pub mod Recorded
pub mod Stressed
pub mod Counted
pub mod Monitor
pub mod Pipeline
pub mod Tests
