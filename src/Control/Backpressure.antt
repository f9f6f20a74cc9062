-- ===== src/Control/Backpressure.antt =====
-- app/control/backpressure_manager.py. `now` is `time.time()`; a deque is the list of its times, the
-- oldest first.
pub mod Laws
use cloud_commander.Prelude.{ℕ, Bool, List, [], ◌∷◌, ◌++◌, if◌then◌else◌, length}
use cloud_commander.Float.{Float}

pub record BackpressureManager (F : Type 0) : Type 0 where
  pub window_seconds : ℕ
  pub limit_rho : F
  pub arrivals : List F
  pub completions : List F

pub record Snapshot (F : Type 0) : Type 0 where
  pub arrival_rate_hz : F
  pub service_rate_hz : F
  pub utilization_rho : F
  pub is_overloaded : Bool
  pub snapshot_limit_rho : F

module _ {F : Type 0} ⦃float : Float F⦄ where
  -- `BackpressureManager(window_seconds, limit_rho)`
  abbrev pub new_manager : ℕ → F → BackpressureManager F
  new_manager window_seconds limit_rho = record {
    window_seconds = window_seconds;
    limit_rho = limit_rho;
    arrivals = [];
    completions = [];
  }

  -- `while times and times[0] < cutoff: times.popleft()`
  unfoldable pub drop_before : F → List F → List F
  drop_before cutoff [] = []
  drop_before cutoff (t ∷ times) =
      let rest = drop_before cutoff times in if float.lt t cutoff then rest else t ∷ times

  unfoldable pub prune : F → BackpressureManager F → BackpressureManager F
  unfolding drop_before
  prune current_time m =
      let cutoff = float.sub current_time (float.lit m.window_seconds 0) in
      record m {
        arrivals = drop_before cutoff m.arrivals;
        completions = drop_before cutoff m.completions;
      }

  unfoldable pub record_arrival : F → BackpressureManager F → BackpressureManager F
  unfolding prune
  record_arrival now m = prune now (record m { arrivals = m.arrivals ++ (now ∷ []) })

  unfoldable pub record_completion : F → BackpressureManager F → BackpressureManager F
  unfolding prune
  record_completion now m = prune now (record m { completions = m.completions ++ (now ∷ []) })

  unfoldable pub get_snapshot : F → BackpressureManager F → Snapshot F × BackpressureManager F
  unfolding prune
  get_snapshot now m =
      let m' = prune now m in
      let window = float.lit m.window_seconds 0 in
      let lambda_rate = float.div (float.lit (length m'.arrivals) 0) window in
      let mu_rate = float.div (float.lit (length m'.completions) 0) window in
      let rho =
        if float.eq mu_rate (float.lit 0 0)
        then if float.lt (float.lit 0 0) lambda_rate then float.lit 1 0 else float.lit 0 0
        else float.div lambda_rate mu_rate in
      (
        record {
          arrival_rate_hz = lambda_rate;
          service_rate_hz = mu_rate;
          utilization_rho = rho;
          is_overloaded = float.le m.limit_rho rho;
          snapshot_limit_rho = m.limit_rho;
        },
        m',
      )

  unfoldable pub is_overloaded : F → BackpressureManager F → Bool × BackpressureManager F
  unfolding get_snapshot
  is_overloaded now m = let (snapshot, m') = get_snapshot now m in (snapshot.is_overloaded, m')
