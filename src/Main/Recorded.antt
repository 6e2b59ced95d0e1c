-- ===== src/Main/Recorded.antt =====
-- cmd/replayor/main.go from the flags to the records: `Main` makes the service, and its `Start` runs
-- the benchmark.
use replayor.Prelude.{false}
use replayor.Strategies.Signing.{init_globals}
use replayor.Stats.Recorder.{StoredStats}
use replayor.Service.Walk.{Session}
use replayor.Main.{Application}

-- The service at its `Start`, on a world and on the disk or store that `Main` has left.
abbrev pub opening :
    {Node EngineApi World Disk : Type 0}
    → Application Node EngineApi Disk
    → World
    → Disk
    → Session StoredStats World Disk
opening app w d = record {
  recorder = app.stats;
  world = w;
  disk = d;
  globals = init_globals;
  cancelled = false;
  closed = false;
}
