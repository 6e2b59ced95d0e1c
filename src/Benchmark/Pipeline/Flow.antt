-- ===== src/Benchmark/Pipeline/Flow.antt =====
-- Nothing is lost, doubled or overtaken between the goroutines of packages/replayor/benchmark.go.
mod Defs
mod Load
mod Submit
mod Moves
pub use Defs.{blocks, mapped_to, pending, held, IsAt, Flow}
unfoldable pub use Defs.{map_one}
pub use Moves.{act-Flow}
