-- ===== src/Main/Wired.antt =====
-- What `Main` of cmd/replayor/main.go returns.
use mathlib.Core.Path.{subst}
use replayor.Prelude.{◌≡◌, refl, ap, ◌∙◌, ◌⊎◌, false, arith, eq_iff}
use replayor.Exec.{Result, ok}
use replayor.Config.{ReplayorConfig, Flags, load_replayor_config}
use replayor.Config.Accepted.{IsAccepted, load_replayor_config-IsAccepted}
use replayor.Stats.Storage.{Storage, Json}
use replayor.Stats.Create.{Places, new_storage}
use replayor.Stats.Recorder.{new_stored_stats}
use replayor.Clients.{Clients, Dialer, setup_clients, >>=-eq-ok}
use replayor.Main.{Application, new_service, main}

module _ {Node EngineApi Bytes World : Type 0} (dialer : Dialer Node EngineApi World)
    (json : Json Bytes) (places : Places Bytes World) where
  new_storage-ok :
      (cfg : ReplayorConfig) (w w' : World) (s : Storage World)
      → new_storage json places cfg w ≡ (ok s, w')
      → (cfg.storage_type ≡ "s3") ⊎ (cfg.storage_type ≡ "disk")
  unfolding new_storage
  new_storage-ok cfg w w' s h =
      ground (arith, eq_iff cfg.storage_type "s3", eq_iff cfg.storage_type "disk")

  -- How `Main` comes to a service.
  pub record IsWired (flags : Flags) (app : Application Node EngineApi World) (w w' : World)
      : Type 0 where
    pub dialed : World
    pub loaded : load_replayor_config flags ≡ ok app.cfg
    pub connected : setup_clients dialer app.cfg w ≡ (ok app.clients, dialed)
    pub stored : new_storage json places app.cfg dialed ≡ (ok app.storage, w')
    pub accepted : IsAccepted app.cfg
    pub placed : (app.cfg.storage_type ≡ "s3") ⊎ (app.cfg.storage_type ≡ "disk")
    pub empty : app.stats ≡ new_stored_stats app.cfg.benchmark_start_block
    pub fresh : app.service.stopped ≡ false

  new_service-IsWired :
      (flags : Flags) (cfg : ReplayorConfig) (c : Clients Node EngineApi) (s : Storage World)
      (w w₁ w₂ w₃ : World)
      → load_replayor_config flags ≡ ok cfg
      → w ≡ w₁
      → setup_clients dialer cfg w₁ ≡ (ok c, w₂)
      → new_storage json places cfg w₂ ≡ (ok s, w₃)
      → IsWired flags (new_service c s (new_stored_stats cfg.benchmark_start_block) cfg) w w₃
  unfolding new_service
  new_service-IsWired flags cfg c s w w₁ w₂ w₃ loaded same p₂ p₃ = record {
    dialed = w₂;
    loaded = loaded;
    connected = ap (setup_clients dialer cfg) same ∙ p₂;
    stored = p₃;
    accepted = load_replayor_config-IsAccepted flags cfg loaded;
    placed = new_storage-ok cfg w₂ w₃ s p₃;
    empty = refl;
    fresh = refl;
  }

  -- A service that `Main` returns is wired like this.
  pub main-IsWired :
      (flags : Flags) (app : Application Node EngineApi World) (w w' : World)
      → main dialer json places flags w ≡ (ok app, w')
      → IsWired flags app w w'
  unfolding main
  main-IsWired flags app w w' h =
      let (cfg, w₁, p₁, h₁) = >>=-eq-ok (λ x. (load_replayor_config flags, x)) _ w h in
      let (c, w₂, p₂, h₂) = >>=-eq-ok (setup_clients dialer cfg) _ w₁ h₁ in
      let (s, w₃, p₃, h₃) = >>=-eq-ok (new_storage json places cfg) _ w₂ h₂ in
      let made : Application Node EngineApi World =
        new_service c s (new_stored_stats cfg.benchmark_start_block) cfg in
      let same : made ≡ app = cc in
      let ends : w₃ ≡ w' = cc in
      subst (λ a. IsWired flags a w w') same
        (subst (λ x. IsWired flags made w x) ends
          (new_service-IsWired flags cfg c s w w₁ w₂ w₃
            (ap (λ (r : Result ReplayorConfig × World). r.0) p₁)
            (ap (λ (r : Result ReplayorConfig × World). r.1) p₁) p₂ p₃))
