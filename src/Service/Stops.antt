-- ===== src/Service/Stops.antt =====
-- Repeated calls of `Stop` of packages/replayor/service.go.
use replayor.Prelude.{
  ℕ, zero, suc, ◌≡◌, refl, ap, true, false, String, Option, none, some, List, [], ◌∷◌, replicate,
}
use replayor.Exec.{Outcome, done}
use replayor.Service.{Service, stop, is_stopped}

-- The outcomes of as many calls, one after the other, and the service after them.
unfoldable pub stops : ℕ → Service → List (Outcome (Option String)) × Service
stops zero s = ([], s)
stops (suc n) s = let (r, s') = stop s in let (rs, s'') = stops n s' in (r ∷ rs, s'')

stops_again :
    (n : ℕ) (s : Service)
    → s.stopped ≡ true
    → stops n s ≡ (replicate n (done (some "already stopped")), s)
unfolding stops stop
stops_again zero s h = refl
stops_again (suc n) s h = simp h (simp (stops_again n s h) refl)

-- Of any number of calls of `Stop` on a service that `Start` has begun and that was not stopped, the
-- first returns nil and every later one `ErrAlreadyStopped`; then `Stopped` answers true and the
-- context of the benchmark is cancelled.
pub stops_lem :
    (n : ℕ) (s : Service)
    → s.stopped ≡ false
    → s.benchmark_cancel ≡ true
    → ((stops (suc n) s).0 ≡ done none ∷ replicate n (done (some "already stopped")))
      × (is_stopped (stops (suc n) s).1 ≡ true)
      × ((stops (suc n) s).1.cancelled ≡ true)
unfolding stops stop is_stopped
stops_lem n s h k =
    let again =
      stops_again n (record { stopped = true; benchmark_cancel = true; cancelled = true }) refl in
    simp (h, k)
      (
        ap (λ (r : List (Outcome (Option String)) × Service). done none ∷ r.0) again,
        ap (λ (r : List (Outcome (Option String)) × Service). r.1.stopped) again,
        ap (λ (r : List (Outcome (Option String)) × Service). r.1.cancelled) again,
      )
