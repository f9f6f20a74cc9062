-- ===== src/Api/Middleware.antt =====
-- app/api/middleware.py: the gate in front of every handler. `call_next` is the rest of the
-- application, over the manager that it shares with the gate and its own state `D`.
pub mod Gate
use cloud_commander.Prelude.{ℕ, Bool, true, false, not, List, [], ◌∷◌, if◌then◌else◌}
use cloud_commander.Text.{Text, codes, contains}
use cloud_commander.Float.{Float}
use cloud_commander.Errors.{
  Result, ok, err, Exc, unauthorized, invalid_transition, hash_verification, concurrency_conflict,
  idempotency_key_in_use, data_corruption, validation, http, plain,
}
use cloud_commander.Control.Backpressure.{
  BackpressureManager, new_manager, is_overloaded, record_arrival,
}
use cloud_commander.Worker.Records.{LibraryTexts, exc_str}

-- Which exceptions of asyncpg are a TypeError or a ValueError
pub record LibraryClasses : Type 0 where
  pub is_value_error : Exc → Bool

-- `isinstance(exc, (TypeError, ValueError))`. The program's own exceptions are an Exception only,
-- pydantic's ValidationError is a ValueError.
unfoldable pub is_bad_value : ⦃classes : LibraryClasses⦄ → Exc → Bool
is_bad_value (unauthorized m) = false
is_bad_value (invalid_transition m) = false
is_bad_value (hash_verification m) = false
is_bad_value (concurrency_conflict m) = false
is_bad_value (idempotency_key_in_use m) = false
is_bad_value (data_corruption m) = false
is_bad_value validation = true
is_bad_value (http status m) = false
is_bad_value (plain m) = false
is_bad_value ⦃classes = classes⦄ other = classes.is_value_error other

-- `except HTTPException`
unfoldable pub is_http : Exc → Bool
is_http (http status m) = true
is_http _ = false

-- What goes back to the client: the handler's response, or the JSON that the gate makes
pub data Answer (R : Type 0) : Type 0 where
  response : R → Answer R
  json_response : ℕ → Text → Answer R

abbrev pub overloaded_message : Text
overloaded_message = codes "System queue overloaded. Retry with exponential backoff."

abbrev pub mutating_methods : List Text
mutating_methods = codes "POST" ∷ codes "PUT" ∷ codes "DELETE" ∷ codes "PATCH" ∷ []

module _ {R : Type 0} where
  -- The `except` clauses
  unfoldable pub answer_of :
      ⦃classes : LibraryClasses⦄ ⦃texts : LibraryTexts⦄ → Result R → Result (Answer R)
  unfolding is_http is_bad_value exc_str
  answer_of (ok r) = ok (response r)
  answer_of (err x) =
      if is_http x
      then err x
      else if is_bad_value x
      then ok (json_response 400 (exc_str x))
      else err x

module _ {F : Type 0} ⦃float : Float F⦄ where
  -- `backpressure_manager` at the module's level
  abbrev pub module_manager : BackpressureManager F
  module_manager = new_manager 60 (float.lit 95 2)

  -- What stands in front of `call_next`: the two clock readings are those of `is_overloaded` and of
  -- `record_arrival`.
  unfoldable pub admit :
      Text → F → F → BackpressureManager F → Result (Unit {0}) × BackpressureManager F
  unfolding contains is_overloaded record_arrival
  admit method now₁ now₂ m =
      if not (contains method mutating_methods)
      then (ok tt, m)
      else let (overloaded, m') = is_overloaded now₁ m in
        if overloaded
        then (err (http 429 overloaded_message), m')
        else (ok tt, record_arrival now₂ m')

  module _ {R D : Type 0} ⦃classes : LibraryClasses⦄ ⦃texts : LibraryTexts⦄ where
    unfoldable pub dispatch :
        Text
        → F
        → F
        → (BackpressureManager F → D → Result R × (BackpressureManager F × D))
        → BackpressureManager F
        → D
        → Result (Answer R) × (BackpressureManager F × D)
    unfolding admit answer_of
    dispatch method now₁ now₂ call_next m d =
        let (admitted, m') = admit method now₁ now₂ m in
        elim admitted [
          | err x ↦ (answer_of (err x), (m', d))
          | ok _ ↦ let (result, after) = call_next m' d in (answer_of result, after)
        ]
