-- ===== src/Main/Dialled.antt =====
-- Where the clients of the service that `Main` of cmd/replayor/main.go makes are connected, from the
-- flags of the command line through packages/config to packages/clients.
use mathlib.Core.Path.{subst}
use replayor.Prelude.{ℕ, String, ◌≡◌, ap, ◌∙◌, []}
use replayor.Exec.{Result, ok}
use replayor.Config.{ReplayorConfig}
use replayor.Config.Read.{CliContext, read_flags, load_replayor_config-Asks}
use replayor.Stats.Storage.{Json}
use replayor.Stats.Create.{Places}
use replayor.Stats.Recorder.{StoredStats}
use replayor.Clients.{Clients, Dialer, setup_clients, >>=-eq-ok}
use replayor.Main.{Application, main}
use replayor.Main.Wired.{main-IsWired}

module _ {Node EngineApi World : Type 0} (dialer : Dialer Node EngineApi World) where
  -- A retried dialling succeeds with an attempt that succeeds.
  pub record IsRetried : Type 0 where
    pub node :
        (n : ℕ) (op : World → Result Node × World) (w w' : World) (x : Node)
        → dialer.retry_node n op w ≡ (ok x, w')
        → (w₀ : World) × (op w₀ ≡ (ok x, w'))
    pub engine :
        (n : ℕ) (op : World → Result EngineApi × World) (w w' : World) (x : EngineApi)
        → dialer.retry_engine n op w ≡ (ok x, w')
        → (w₀ : World) × (op w₀ ≡ (ok x, w'))

  -- The clients are the answers of three diallings of these addresses.
  pub record AreDialled (c : Clients Node EngineApi) (source dest engine : String) : Type 0 where
    pub source_dialled :
        (w : World) × (w' : World) × (dialer.dial source w ≡ (ok c.source_node, w'))
    pub dest_dialled : (w : World) × (w' : World) × (dialer.dial dest w ≡ (ok c.dest_node, w'))
    pub engine_dialled :
        (w : World) × (w' : World) × (dialer.new_rpc engine w ≡ (ok c.engine_api, w'))

  pub setup_clients-AreDialled :
      IsRetried
      → (cfg : ReplayorConfig) (c : Clients Node EngineApi) (w w' : World)
      → setup_clients dialer cfg w ≡ (ok c, w')
      → AreDialled c cfg.source_node_url cfg.execution_url cfg.engine_api_url
  unfolding setup_clients
  setup_clients-AreDialled retried cfg c w w' h =
      let (s, w₁, p₁, h₁) = >>=-eq-ok (dialer.dial cfg.source_node_url) _ w h in
      let (d, w₂, p₂, h₂) =
        >>=-eq-ok (dialer.retry_node 120 (dialer.dial cfg.execution_url)) _ w₁ h₁ in
      let (e, w₃, p₃, h₃) =
        >>=-eq-ok (dialer.retry_engine 120 (dialer.new_rpc cfg.engine_api_url)) _ w₂ h₂ in
      let (v₂, q₂) = retried.node 120 (dialer.dial cfg.execution_url) w₁ w₂ d p₂ in
      let (v₃, q₃) = retried.engine 120 (dialer.new_rpc cfg.engine_api_url) w₂ w₃ e p₃ in
      let made : Clients Node EngineApi = record {
        source_node = s;
        dest_node = d;
        engine_api = e;
      } in
      let same : made ≡ c = cc in
      subst (λ x. AreDialled x cfg.source_node_url cfg.execution_url cfg.engine_api_url) same
        (record {
          source_dialled = (w, w₁, p₁);
          dest_dialled = (v₂, w₂, q₂);
          engine_dialled = (v₃, w₃, q₃);
        })

module _ {Node EngineApi Bytes World : Type 0} (dialer : Dialer Node EngineApi World)
    (json : Json Bytes) (places : Places Bytes World)
    (new_rollup_config : String → String → Result ℕ) (hostname : Result String) where
  -- Where a retried dialling succeeds with an attempt that succeeds: when `Main` makes a service of a
  -- command line, the source node, the destination node and the engine API are answers of diallings of
  -- the addresses that the command line gives for `source-node-url`, `execution-url` and
  -- `engine-api-url`, and the recorder is empty, with the `benchmark-start-block` as the last block
  -- written.
  pub main_dials :
      (c : CliContext) (app : Application Node EngineApi World) (w w' : World)
      → IsRetried dialer
      → main dialer json places (read_flags new_rollup_config hostname c) w ≡ (ok app, w')
      → AreDialled dialer app.clients
          (c.string "source-node-url")
          (c.string "execution-url")
          (c.string "engine-api-url")
        × (app.stats.stats ≡ [])
        × (app.stats.last_block_written ≡ c.uint64 "benchmark-start-block")
  main_dials c app w w' retried h =
      let wired =
        main-IsWired dialer json places (read_flags new_rollup_config hostname c) app w w' h in
      let (
        secret,
        ((source, engine, dest, strategy), (blocks, target, limit, first), bools, texts),
        on,
        named,
      ) =
        load_replayor_config-Asks new_rollup_config hostname c app.cfg wired.loaded in
      let dialled =
        setup_clients-AreDialled dialer retried app.cfg app.clients w wired.dialed
          wired.connected in
      (
        rw (source, dest, engine) at dialled,
        ap (λ (r : StoredStats). r.stats) wired.empty,
        ap (λ (r : StoredStats). r.last_block_written) wired.empty ∙ first,
      )
