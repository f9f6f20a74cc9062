-- ===== src/Api/App.antt =====
-- app/main.py: the pool over the life of the application. `create_pool` is asyncpg's, and `serve` is
-- what the application does between its start and its end.
use cloud_commander.Prelude.{none, some, List, [], ◌∷◌, if◌then◌else◌}
use cloud_commander.Text.{Text, codes, text_eq}
use cloud_commander.Environment.{Env, getenv_or}
use cloud_commander.Errors.{Result, ok, err, ◌>>=◌}
use cloud_commander.Api.Dependencies.{AppState}

module _ {P : Type 0} where
  -- `app.state.db_pool` when the application starts
  unfoldable pub startup : Env → (Text → Result P) → Result (AppState P)
  unfolding text_eq
  startup env create_pool =
      let skip_pool =
        text_eq (getenv_or (env (codes "SKIP_DB_POOL_INIT")) (codes "0")) (codes "1") in
      elim (env (codes "DATABASE_URL")) [
        | none ↦ ok (record { db_pool = none })
        | some [] ↦ ok (record { db_pool = none })
        | some (c ∷ url) ↦
            if skip_pool
            then ok (record { db_pool = none })
            else (create_pool (c ∷ url) >>= λ pool. ok (record { db_pool = some pool }))
      ]

  -- The pools that are closed at the end
  abbrev pub shutdown : AppState P → List P
  shutdown state = elim state.db_pool [ none ↦ [] | some pool ↦ pool ∷ [] ]

  -- How the application ends, and the pools that it has closed
  unfoldable pub lifespan :
      Env
      → (Text → Result P)
      → (AppState P → Result (Unit {0}) × AppState P)
      → Result (Unit {0}) × List P
  unfolding startup
  lifespan env create_pool serve = elim (startup env create_pool) [
    | err x ↦ (err x, [])
    | ok state ↦ let (result, state') = serve state in (result, shutdown state')
  ]
