-- ===== src/Main.antt =====
-- cmd/replayor/main.go, `Main`: the configuration, the clients, the storage and the recorder, of which
-- the service is made.
pub mod Wired
pub mod Dialled
pub mod Recorded
mod Tests
use replayor.Prelude.{ℕ, false}
use replayor.Exec.{Result, ok, err}
use replayor.Config.{ReplayorConfig, Flags, load_replayor_config}
use replayor.Stats.Storage.{Storage, Json}
use replayor.Stats.Create.{Places, new_storage}
use replayor.Stats.Recorder.{StoredStats, new_stored_stats}
use replayor.Clients.{Clients, Dialer, Fallible, ◌>>=◌, setup_clients}
use replayor.Service.{Service}

-- What `NewService` is given and makes; the recorder with the storage that it writes to.
pub record Application (Node EngineApi World : Type 0) : Type 0 where
  pub clients : Clients Node EngineApi
  pub storage : Storage World
  pub stats : StoredStats
  pub cfg : ReplayorConfig
  pub service : Service

unfoldable pub new_service :
    {Node EngineApi World : Type 0}
    → Clients Node EngineApi
    → Storage World
    → StoredStats
    → ReplayorConfig
    → Application Node EngineApi World
new_service c storage s cfg = record {
  clients = c;
  storage = storage;
  stats = s;
  cfg = cfg;
  service = record { stopped = false; benchmark_cancel = false; cancelled = false };
}

module _ {Node EngineApi Bytes World : Type 0} (dialer : Dialer Node EngineApi World)
    (json : Json Bytes) (places : Places Bytes World) where
  unfoldable pub main : Flags → Fallible World (Application Node EngineApi World)
  unfolding new_service
  main flags = do
    cfg ← λ w. (load_replayor_config flags, w)
    c ← setup_clients dialer cfg
    s ← new_storage json places cfg
    λ w. (ok (new_service c s (new_stored_stats cfg.benchmark_start_block) cfg), w)
