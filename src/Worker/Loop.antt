-- ===== src/Worker/Loop.antt =====
-- app/worker/projection_worker.py: the start of the worker, its polling loop and its end. The loop
-- ends only when the stop event is set, so it runs on fuel, a unit for each test of the event.
pub mod Stop
use cloud_commander.Prelude.{
  ℕ, zero, suc, Bool, true, false, not, ◌||◌, Option, none, some, List, [], ◌∷◌, if◌then◌else◌,
}
use cloud_commander.Text.{Text, codes}
use cloud_commander.Float.{Float}
use cloud_commander.Environment.{Env}
use cloud_commander.Errors.{Result, ok, err, plain, Exc, ◌>>=◌}
use cloud_commander.Security.HashChain.{Hasher}
use cloud_commander.Infrastructure.Database.{Db, OutboxRow}
use cloud_commander.Infrastructure.Repository.{Codec}
use cloud_commander.Infrastructure.Adapters.{
  CloudAdapter, FloatParser, MockAwsAdapter, MockOptions, new_mock,
}
use cloud_commander.Control.PidGuardrail.{PidGuardrailController, new_controller}
use cloud_commander.Control.Backpressure.{BackpressureManager}
use cloud_commander.Api.Middleware.{module_manager}
use cloud_commander.Worker.Reconciler.{Reconciler, new_reconciler}
use cloud_commander.Worker.Records.{LibraryTexts, WorkerState}
use cloud_commander.Worker.Batch.{Surroundings, process_next_batch}

pub data Signal : Type 0 where
  sigint sigterm other_signal : Signal

-- `hasattr(signal, "SIGTERM")` depends on the platform.
abbrev pub termination_signals : Bool → List Signal
termination_signals has_sigterm = if has_sigterm then sigint ∷ sigterm ∷ [] else sigint ∷ []

unfoldable pub is_signal : Signal → Signal → Bool
is_signal sigint sigint = true
is_signal sigterm sigterm = true
is_signal other_signal other_signal = true
is_signal _ _ = false

-- The stop event after a signal, once the handlers are installed
unfoldable pub on_signal : Bool → Signal → Bool → Bool
unfolding is_signal
on_signal has_sigterm received stop_event = stop_event || handled (termination_signals has_sigterm)
  where
    handled : List Signal → Bool
    handled [] = false
    handled (s ∷ signals) = is_signal s received || handled signals

module _ {F : Type 0} ⦃float : Float F⦄ where
  -- `pid_controller` at the module's level
  abbrev pub module_controller : PidGuardrailController F
  module_controller = new_controller (float.lit 5 1) (float.lit 1 1) (float.lit 2 1) (float.lit 8 1)

  abbrev pub no_options : MockOptions F
  no_options = record {
    chaos_enabled = none;
    chaos_r = none;
    chaos_x = none;
    chaos_min_delay_sec = none;
    chaos_max_delay_sec = none;
  }

  -- `OutboxWorker(pool)`, with what the module keeps
  unfoldable pub new_worker :
      ⦃parser : FloatParser F⦄ → Env → Result (WorkerState F (MockAwsAdapter F))
  unfolding new_mock new_reconciler
  new_worker env = do
    adapter ← new_mock env no_options
    ok (record {
      reconciler = new_reconciler adapter;
      pid_controller = module_controller;
      backpressure_manager = module_manager;
    })

-- Does the loop sleep behind this turn? After an exception, and where nothing was claimed.
abbrev pub sleeps : Result Bool → Bool
sleeps (err x) = true
sleeps (ok processed_any) = not processed_any

module _ {St : Type 0} where
  -- `while not stop_event.is_set()`: the state and the number of sleeps when it ends. `stopped k` is
  -- the event at its `k`-th test, `turn k` is what `process_next_batch` does then.
  unfoldable pub run_loop :
      (ℕ → Bool) → (ℕ → St → Result Bool × St) → ℕ → ℕ → St → ℕ → Option (St × ℕ)
  run_loop stopped turn zero k s slept = none
  run_loop stopped turn (suc fuel) k s slept =
      let (result, s') = turn k s in
      let rest =
        run_loop stopped turn fuel (suc k) s' (if sleeps result then suc slept else slept) in
      if stopped k then some (s, slept) else rest

-- What one turn meets: a failure to get a connection, before anything is claimed, or the rest
pub record Round (F J : Type 0) : Type 0 where
  pub failure : Option Exc
  pub locked : OutboxRow → Bool
  pub now : ℕ
  pub at : OutboxRow → Surroundings F J

module _ {F J A : Type 0} ⦃float : Float F⦄ ⦃hasher : Hasher J⦄ ⦃codec : Codec F J⦄
    ⦃adapters : CloudAdapter F A⦄ ⦃texts : LibraryTexts⦄ where
  -- `process_next_batch()`, with its batch size of 10
  unfoldable pub poll :
      (ℕ → Round F J) → ℕ → Db F J × WorkerState F A → Result Bool × (Db F J × WorkerState F A)
  unfolding process_next_batch
  poll rounds k (db, s) =
      let r = rounds k in
      elim r.failure [
        | some x ↦ (err x, (db, s))
        | none ↦
            let (any_rows, after) = process_next_batch 10 r.locked r.now r.at db s in
            (ok any_rows, after)
      ]

  unfoldable pub run :
      (ℕ → Bool)
      → (ℕ → Round F J)
      → ℕ
      → Db F J × WorkerState F A
      → Option ((Db F J × WorkerState F A) × ℕ)
  unfolding run_loop poll
  run stopped rounds fuel start = run_loop stopped (poll rounds) fuel 0 start 0

module _ {P : Type 0} where
  unfoldable pub create_pool_from_env : Env → (Text → Result P) → Result P
  create_pool_from_env env create_pool = elim (env (codes "DATABASE_URL")) [
    | none ↦ err (plain (codes "DATABASE_URL must be set for worker startup."))
    | some [] ↦ err (plain (codes "DATABASE_URL must be set for worker startup."))
    | some (c ∷ url) ↦ create_pool (c ∷ url)
  ]

module _ {F J P : Type 0} ⦃float : Float F⦄ ⦃parser : FloatParser F⦄ ⦃hasher : Hasher J⦄
    ⦃codec : Codec F J⦄ ⦃adapters : CloudAdapter F (MockAwsAdapter F)⦄ ⦃texts : LibraryTexts⦄ where
  -- How the process ends, the database that it leaves, and the pools that it has closed
  unfoldable pub main :
      Env
      → (Text → Result P)
      → (ℕ → Bool)
      → (ℕ → Round F J)
      → ℕ
      → Db F J
      → Option (Result (Unit {0}) × (Db F J × List P))
  unfolding create_pool_from_env new_worker run
  main env create_pool stopped rounds fuel db = elim (create_pool_from_env env create_pool) [
    | err x ↦ some (err x, (db, []))
    | ok pool ↦ elim (new_worker env) [
      | err x ↦ some (err x, (db, []))
      | ok worker ↦ elim (run stopped rounds fuel (db, worker)) [
        | none ↦ none
        | some (after, slept) ↦ some (ok tt, (after.0, pool ∷ []))
      ]
    ]
  ]
