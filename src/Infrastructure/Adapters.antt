-- ===== src/Infrastructure/Adapters.antt =====
-- app/infrastructure/adapters. The sleeps, which only take time, are left out; a payload is the one
-- class that the callers give, `ResourceAllocationRequested`.
pub mod Chaos
use cloud_commander.Prelude.{
  ℕ, Bool, true, false, Option, none, some, [], ◌∷◌, ◌++◌, if◌then◌else◌, kept,
}
use cloud_commander.Text.{Text, codes, text_eq, contains, strip, lower}
use cloud_commander.Environment.{Env, getenv_or}
use cloud_commander.Errors.{Result, ok, err, ◌>>=◌}
use cloud_commander.Float.{Float, max_of, min_of}
use cloud_commander.Domain.Schemas.{ResourceAllocationRequested}

-- The statuses that `CloudAdapter` names, and any other string
pub data AdapterStatus : Type 0 where
  success partial_failure throttled timeout : AdapterStatus
  other_status : Text → AdapterStatus

unfoldable pub status_str : AdapterStatus → Text
status_str success = codes "success"
status_str partial_failure = codes "partial_failure"
status_str throttled = codes "throttled"
status_str timeout = codes "timeout"
status_str (other_status s) = s

pub record AdapterResult : Type 0 where
  pub status : AdapterStatus
  pub nodes_success : ℕ
  pub nodes_failed : ℕ
  pub provider_message : Text

-- The abstract class, over the state that an adapter keeps
pub record CloudAdapter (F A : Type 0) : Type 0 where
  pub apply_allocation : Text → ResourceAllocationRequested F → A → AdapterResult × A

pub record MockAwsAdapter (F : Type 0) : Type 0 where
  pub chaos_enabled : Bool
  pub chaos_r : F
  pub chaos_x : F
  pub chaos_min_delay_sec : F
  pub chaos_max_delay_sec : F

-- Python's `float(s)`, which raises a ValueError for a text that is no number
pub record FloatParser (F : Type 0) : Type 0 where
  pub parse : Text → Result F

-- `value.strip().lower() in {"1", "true", "yes", "on"}`, or the default
unfoldable pub env_flag : Option Text → Bool → Bool
unfolding contains strip lower
env_flag none default = default
env_flag (some value) default =
    contains (lower (strip value)) (codes "1" ∷ codes "true" ∷ codes "yes" ∷ codes "on" ∷ [])

-- The arguments of `__init__`
pub record MockOptions (F : Type 0) : Type 0 where
  pub chaos_enabled : Option Bool
  pub chaos_r : Option F
  pub chaos_x : Option F
  pub chaos_min_delay_sec : Option F
  pub chaos_max_delay_sec : Option F

module _ {F : Type 0} ⦃parser : FloatParser F⦄ where
  -- `float(os.getenv(name, default)) if value is None else value`
  abbrev pub float_or : Option F → Option Text → Text → Result F
  float_or (some value) variable default = ok value
  float_or none variable default = parser.parse (getenv_or variable default)

  -- `__init__`
  unfoldable pub new_mock : Env → MockOptions F → Result (MockAwsAdapter F)
  unfolding env_flag
  new_mock env options = do
    r ← float_or options.chaos_r (env (codes "MOCK_AWS_CHAOS_R")) (codes "3.7")
    x ← float_or options.chaos_x (env (codes "MOCK_AWS_CHAOS_X0")) (codes "0.42")
    shortest ←
        float_or options.chaos_min_delay_sec (env (codes "MOCK_AWS_CHAOS_MIN_DELAY_SEC"))
          (codes "0.05")
    longest ←
        float_or options.chaos_max_delay_sec (env (codes "MOCK_AWS_CHAOS_MAX_DELAY_SEC"))
          (codes "0.25")
    ok (record {
      chaos_enabled = elim options.chaos_enabled [
        | none ↦ env_flag (env (codes "MOCK_AWS_CHAOS_ENABLED")) false
        | some enabled ↦ enabled
      ];
      chaos_r = r;
      chaos_x = x;
      chaos_min_delay_sec = shortest;
      chaos_max_delay_sec = longest;
    })

abbrev pub result_of : AdapterStatus → ℕ → ℕ → Text → AdapterResult
result_of s good bad message = record {
  status = s;
  nodes_success = good;
  nodes_failed = bad;
  provider_message = message;
}

module _ {F : Type 0} ⦃float : Float F⦄ where
  -- The smallest and the largest value of the logistic map that is kept
  abbrev pub chaos_low : F
  chaos_low = float.lit 1 6

  abbrev pub chaos_high : F
  chaos_high = float.sub (float.lit 1 0) (float.lit 1 6)

  unfoldable pub next_chaos_value : MockAwsAdapter F → F × MockAwsAdapter F
  next_chaos_value a =
      let x = max_of chaos_low (min_of chaos_high a.chaos_x) in
      let r = max_of (float.lit 0 0) (min_of (float.lit 4 0) a.chaos_r) in
      let next_x = float.mul (float.mul r x) (float.sub (float.lit 1 0) x) in
      let kept = max_of chaos_low (min_of chaos_high next_x) in (kept, record a { chaos_x = kept })

  -- How long `_apply_chaos_profile` sleeps
  unfoldable pub chaos_delay : MockAwsAdapter F → F → F
  chaos_delay a chaos = float.add a.chaos_min_delay_sec (
      float.mul (max_of (float.lit 0 0) (float.sub a.chaos_max_delay_sec a.chaos_min_delay_sec))
        chaos)

  abbrev pub chaos_message : Text → F → Text
  chaos_message what x =
      codes "Chaos " ++ (what ++ (codes " (x=" ++ (float.fixed 4 x ++ codes ")")))

  unfoldable pub apply_chaos_profile : MockAwsAdapter F → AdapterResult × MockAwsAdapter F
  unfolding next_chaos_value
  apply_chaos_profile a =
      let (chaos, a') = next_chaos_value a in
      (
        if float.le (float.lit 90 2) chaos
            then result_of timeout 0 4 (chaos_message (codes "timeout") chaos)
            else if float.le (float.lit 80 2) chaos
            then result_of throttled 0 4 (chaos_message (codes "throttling") chaos)
            else if float.le (float.lit 65 2) chaos
            then result_of partial_failure 3 1 (chaos_message (codes "partial capacity loss") chaos)
            else result_of success 4 0 (chaos_message (codes "stable window") chaos),
        a',
      )

  unfoldable pub mock_apply_allocation :
      Text → ResourceAllocationRequested F → MockAwsAdapter F → AdapterResult × MockAwsAdapter F
  unfolding apply_chaos_profile
  mock_apply_allocation aggregate_id payload a =
      if text_eq payload.reason_code (codes "trigger-throttle")
      then (
        result_of throttled 0 4 (
            codes
              "Rate exceeded (Service: AmazonEC2; Status Code: 403; Error Code: RequestLimitExceeded)"),
        a,
      )
      else if text_eq payload.reason_code (codes "trigger-partial")
      then (
        result_of partial_failure 3 1 (codes "InsufficientInstanceCapacity on 1/4 requested nodes"),
        a,
      )
      else if text_eq payload.reason_code (codes "trigger-timeout")
      then (result_of timeout 0 4 (codes "Connection timed out"), a)
      else if a.chaos_enabled
      then apply_chaos_profile a
      else (result_of success 4 0 (codes "OK"), a)

  instance abbrev pub mock_aws : CloudAdapter F (MockAwsAdapter F)
  mock_aws = record { apply_allocation = mock_apply_allocation }
