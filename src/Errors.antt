-- ===== src/Errors.antt =====
-- The exceptions that the program raises or meets, and fallible code as a result.
use cloud_commander.Prelude.{ℕ, ◌≡◌, refl, ◌↔◌, ◌⊎◌, inl, inr, Bool, if◌then◌else◌}
use cloud_commander.Text.{Text}

-- Each constructor names an exception class and holds its message; for the violations of the
-- database it holds the constraint's name, for an `HTTPException` the status too.
pub data Exc : Type 0 where
  unauthorized : Text → Exc  -- UnauthorizedStateTransitionError
  invalid_transition : Text → Exc  -- InvalidStateTransitionError
  hash_verification : Text → Exc  -- HashVerificationError
  concurrency_conflict : Text → Exc  -- ConcurrencyConflictError
  idempotency_key_in_use : Text → Exc  -- IdempotencyKeyInUseError
  data_corruption : Text → Exc  -- DataCorruptionError
  validation : Exc  -- pydantic's ValidationError, a ValueError
  unique_violation : Text → Exc  -- asyncpg's UniqueViolationError
  check_violation : Text → Exc  -- asyncpg's CheckViolationError
  foreign_key_violation : Text → Exc  -- asyncpg's ForeignKeyViolationError
  data_error : Exc  -- asyncpg's DataError: a value that its column cannot hold
  http : ℕ → Text → Exc  -- fastapi's HTTPException
  plain : Text → Exc  -- Exception, RuntimeError

pub data Result {ℓ} (A : Type ℓ) : Type ℓ where
  err : Exc → Result A  -- raises
  ok : A → Result A  -- returns

-- `if not passed: raise x`
abbrev pub guard : Bool → Exc → Result (Unit {0})
guard passed x = if passed then ok tt else err x

infixl 5 ◌>>=◌
-- One statement behind the other: an exception skips what is left.
abbrev pub ◌>>=◌ {ℓ κ} : {A : Type ℓ} {B : Type κ} (r : Result A) (rest : A → Result B) → Result B
err x >>= rest = err x
ok a >>= rest = rest a

infixl 5 ◌>>◌
abbrev pub ◌>>◌ {ℓ} : {B : Type ℓ} (r : Result (Unit {0})) (rest : Result B) → Result B
err x >> rest = err x
ok done >> rest = rest

-- Where a sequence returns, its first part has returned, and so has the rest on that value.
pub >>=-eq-ok {ℓ κ} :
    {A : Type ℓ} {B : Type κ} (first : Result A) (rest : A → Result B) {last : B}
    → (first >>= rest) ≡ ok last
    → (mid : A) × (first ≡ ok mid) × (rest mid ≡ ok last)
>>=-eq-ok (err x) rest h = cc
>>=-eq-ok (ok mid) rest h = (mid, refl, h)

pub Result-cases {ℓ} :
    {A : Type ℓ} (r : Result A) → ((a : A) × (r ≡ ok a)) ⊎ ((e : Exc) × (r ≡ err e))
Result-cases (ok a) = inl (a, refl)
Result-cases (err e) = inr (e, refl)

pub >>-eq-ok {ℓ} :
    {B : Type ℓ} (m : Result (Unit {0})) (k : Result B) (b : B)
    → ((m >> k) ≡ ok b) ↔ ((m ≡ ok tt) × (k ≡ ok b))
>>-eq-ok (ok tt) k b = (λ h. (refl, h), λ h. h.1)
>>-eq-ok (err e) k b = (λ h. cc, λ h. cc (h.0))
