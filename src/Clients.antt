-- ===== src/Clients.antt =====
-- packages/clients/clients.go: the connections to the source node, the destination node and its engine
-- API, which are opened one after the other.
use replayor.Prelude.{ℕ, String, ◌≡◌, refl, ◌⊎◌, inl, inr}
use replayor.Exec.{Result, ok, err}
use replayor.Config.{ReplayorConfig}

-- The three clients, as go-ethereum and op-service make them.
pub record Clients (Node EngineApi : Type 0) : Type 0 where
  pub source_node : Node
  pub dest_node : Node
  pub engine_api : EngineApi

-- `ethclient.Dial`, `client.NewRPC` with the engine API's client on it, and op-service's `retry.Do` at
-- the types of both.
pub record Dialer (Node EngineApi World : Type 0) : Type 0 where
  pub dial : String → World → Result Node × World
  pub new_rpc : String → World → Result EngineApi × World
  pub retry_node : ℕ → (World → Result Node × World) → World → Result Node × World
  pub retry_engine : ℕ → (World → Result EngineApi × World) → World → Result EngineApi × World

-- Calls that change the world and may return an error, one after the other.
abbrev pub Fallible : Type 0 → Type 0 → Type 0
Fallible World A = World → Result A × World

module _ {World A B : Type 0} where
  abbrev pub proceed : Result A → (A → Fallible World B) → Fallible World B
  proceed (ok a) f w = f a w
  proceed (err e) f w = (err e, w)

  infixl 5 ◌>>=◌
  abbrev pub ◌>>=◌ : Fallible World A → (A → Fallible World B) → Fallible World B
  ◌>>=◌ m f w = let (r, w') = m w in proceed r f w'

module _ {Node EngineApi World : Type 0} (dialer : Dialer Node EngineApi World) where
  unfoldable pub setup_clients : ReplayorConfig → Fallible World (Clients Node EngineApi)
  setup_clients cfg = do
    source ← dialer.dial cfg.source_node_url
    dest ← dialer.retry_node 120 (dialer.dial cfg.execution_url)
    engine ← dialer.retry_engine 120 (dialer.new_rpc cfg.engine_api_url)
    λ w. (ok (record { source_node = source; dest_node = dest; engine_api = engine }), w)

-- Calls that succeed went through the first one, and an error comes from one of them.
pub >>=-eq-ok :
    {World A B : Type 0} (m : Fallible World A) (f : A → Fallible World B) (w : World) {b : B}
    {w'' : World}
    → (m >>= f) w ≡ (ok b, w'')
    → (a : A) × (w' : World) × (m w ≡ (ok a, w')) × (f a w' ≡ (ok b, w''))
>>=-eq-ok {World} {A} {B} m f w {b} {w''} h = go (m w) refl h
  where
    go :
        (r : Result A × World)
        → m w ≡ r
        → proceed r.0 f r.1 ≡ (ok b, w'')
        → (a : A) × (w' : World) × (m w ≡ (ok a, w')) × (f a w' ≡ (ok b, w''))
    go (ok a, w') e k = (a, w', e, k)
    go (err e', w') e k = cc

pub >>=-eq-err :
    {World A B : Type 0} (m : Fallible World A) (f : A → Fallible World B) (w : World) {e : String}
    {w'' : World}
    → (m >>= f) w ≡ (err e, w'')
    → (m w ≡ (err e, w'')) ⊎ ((a : A) × (w' : World) × (m w ≡ (ok a, w')) × (f a w' ≡ (err e, w'')))
>>=-eq-err {World} {A} {B} m f w {e} {w''} h = go (m w) refl h
  where
    go :
        (r : Result A × World)
        → m w ≡ r
        → proceed r.0 f r.1 ≡ (err e, w'')
        → (m w ≡ (err e, w''))
          ⊎ ((a : A) × (w' : World) × (m w ≡ (ok a, w')) × (f a w' ≡ (err e, w'')))
    go (ok a, w') same k = inr (a, w', same, k)
    go (err e', w') same k = inl cc
