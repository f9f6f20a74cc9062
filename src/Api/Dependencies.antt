-- ===== src/Api/Dependencies.antt =====
-- app/api/dependencies.py: what the handlers ask for. FastAPI has parsed the headers and tested the
-- length of `X-Actor-Id`. `P` is the pool of asyncpg.
pub mod Laws
use cloud_commander.Prelude.{
  ℕ, Bool, true, false, not, Option, none, some, List, [], ◌∷◌, ◌==◌, if◌then◌else◌,
}
use cloud_commander.Text.{Text, codes, strip}
use cloud_commander.Uuid.{Uuid}
use cloud_commander.Errors.{Result, ok, err, http}

abbrev pub comma : ℕ
comma = b','

-- One character in front of the first part
abbrev pub put_first : ℕ → List Text → List Text
put_first c [] = (c ∷ []) ∷ []
put_first c (part ∷ parts) = (c ∷ part) ∷ parts

-- `s.split(sep)` for one character
unfoldable pub split : ℕ → Text → List Text
split sep [] = [] ∷ []
split sep (c ∷ s) = let rest = split sep s in if c == sep then [] ∷ rest else put_first c rest

-- `not s` for a string
abbrev pub is_empty : Text → Bool
is_empty [] = true
is_empty (c ∷ s) = false

-- `[c.strip() for c in parts if c.strip()]`
unfoldable pub stripped_parts : List Text → List Text
unfolding strip
stripped_parts [] = []
stripped_parts (part ∷ parts) =
    let rest = stripped_parts parts in if is_empty (strip part) then rest else strip part ∷ rest

unfoldable pub get_current_user_claims : Text → List Text
unfolding split stripped_parts
get_current_user_claims x_actor_claims =
    if is_empty (strip x_actor_claims) then [] else stripped_parts (split comma x_actor_claims)

-- app.state, whose `db_pool` is none before the start and without a database
pub record AppState (P : Type 0) : Type 0 where
  pub db_pool : Option P

-- app/infrastructure/repository.py, the object with its pool
pub record EventRepository (P : Type 0) : Type 0 where
  pub pool : P

module _ {P : Type 0} where
  unfoldable pub get_db_pool : AppState P → Result P
  get_db_pool state = elim state.db_pool [
    | none ↦ err (http 503 (codes "Database pool is not initialized."))
    | some pool ↦ ok pool
  ]

  abbrev pub get_repository : P → EventRepository P
  get_repository pool = record { pool = pool }

abbrev pub get_tenant_id : Uuid → Uuid
get_tenant_id x_tenant_id = x_tenant_id

abbrev pub get_actor_id : Text → Text
get_actor_id x_actor_id = x_actor_id
