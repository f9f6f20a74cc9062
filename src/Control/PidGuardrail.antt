-- ===== src/Control/PidGuardrail.antt =====
-- app/control/pid_guardrail.py. `current_time` is `time.time()`; a dictionary is the list of its items.
pub mod Laws
pub mod Degree
use cloud_commander.Prelude.{ℕ, Bool, ◌||◌, Option, none, some, List, [], ◌∷◌, ltb, if◌then◌else◌}
use cloud_commander.Text.{Text, codes, text_eq}
use cloud_commander.Float.{Float, max_of, min_of}

pub record TriangleFuzzySet (F : Type 0) : Type 0 where
  pub a : F
  pub b : F
  pub c : F

pub record PidState (F : Type 0) : Type 0 where
  pub previous_error : F
  pub integral : F
  pub last_time : F

pub data Label : Type 0 where
  stable drifting volatile : Label

unfoldable pub label_str : Label → Text
label_str stable = codes "stable"
label_str drifting = codes "drifting"
label_str volatile = codes "volatile"

abbrev pub severity_rank : Label → ℕ
severity_rank stable = 0
severity_rank drifting = 1
severity_rank volatile = 2

pub record FuzzyState (F : Type 0) : Type 0 where
  pub label : Label
  pub degree : F
  pub membership : Label → F
  pub control_signal_abs : F

pub record PidGuardrailController (F : Type 0) : Type 0 where
  pub kp : F
  pub ki : F
  pub kd : F
  pub setpoint : F
  pub state_by_aggregate : List (Text × PidState F)
  pub latest_state : FuzzyState F
  pub latest_state_by_aggregate : List (Text × FuzzyState F)

-- `items.get(key, default)`
unfoldable pub get_item : {A : Type 0} → Text → A → List (Text × A) → A
get_item key default [] = default
get_item key default ((k, v) ∷ items) = if text_eq k key then v else get_item key default items

-- `items[key] = value`
unfoldable pub set_item : {A : Type 0} → Text → A → List (Text × A) → List (Text × A)
set_item key value [] = (key, value) ∷ []
set_item key value ((k, v) ∷ items) =
    let rest = set_item key value items in
    if text_eq k key then (k, value) ∷ items else (k, v) ∷ rest

module _ {F : Type 0} ⦃float : Float F⦄ where
  unfoldable pub fuzzy_value : TriangleFuzzySet F → F → F
  fuzzy_value s x =
      if float.lt x s.a || float.lt s.c x
      then float.lit 0 0
      else if float.eq x s.b
      then float.lit 1 0
      else if float.lt x s.b
      then if float.eq (float.sub s.b s.a) (float.lit 0 0)
        then float.lit 1 0
        else float.div (float.sub x s.a) (float.sub s.b s.a)
      else if float.eq (float.sub s.c s.b) (float.lit 0 0)
      then float.lit 1 0
      else float.div (float.sub s.c x) (float.sub s.c s.b)

  abbrev pub instability_sets : Label → TriangleFuzzySet F
  instability_sets stable = record { a = float.lit 0 0; b = float.lit 0 0; c = float.lit 35 2 }
  instability_sets drifting = record { a = float.lit 2 1; b = float.lit 55 2; c = float.lit 95 2 }
  instability_sets volatile = record { a = float.lit 75 2; b = float.lit 13 1; c = float.lit 25 1 }

  abbrev pub stable_membership : Label → F
  stable_membership stable = float.lit 1 0
  stable_membership drifting = float.lit 0 0
  stable_membership volatile = float.lit 0 0

  unfoldable pub stable_state : FuzzyState F
  stable_state = record {
    label = stable;
    degree = float.lit 1 0;
    membership = stable_membership;
    control_signal_abs = float.lit 0 0;
  }

  -- `__init__`
  unfoldable pub new_controller : F → F → F → F → PidGuardrailController F
  unfolding stable_state
  new_controller kp ki kd setpoint = record {
    kp = kp;
    ki = ki;
    kd = kd;
    setpoint = setpoint;
    state_by_aggregate = [];
    latest_state = stable_state;
    latest_state_by_aggregate = [];
  }

  -- The order of the tuples `(degree, severity_rank)`
  abbrev pub key_lt : (Label → F) → Label → Label → Bool
  key_lt membership l m =
      if float.eq (membership l) (membership m)
      then ltb (severity_rank l) (severity_rank m)
      else float.lt (membership l) (membership m)

  -- `max` keeps the first of the items that no later one is above.
  abbrev pub higher : (Label → F) → Label → Label → Label
  higher membership l m = if key_lt membership l m then m else l

  unfoldable pub classify_instability : F → FuzzyState F
  unfolding fuzzy_value
  classify_instability control_signal =
      let control_abs = float.abs control_signal in
      let capped = min_of control_abs (float.lit 25 1) in
      let membership : Label → F = λ l.
        max_of (float.lit 0 0) (min_of (float.lit 1 0) (fuzzy_value (instability_sets l) capped)) in
      let label = higher membership (higher membership stable drifting) volatile in
      record {
        label = label;
        degree = membership label;
        membership = membership;
        control_signal_abs = control_abs;
      }

  unfoldable pub observe_resource_change :
      F → F → Text → PidGuardrailController F → F × PidGuardrailController F
  unfolding get_item set_item classify_instability
  observe_resource_change current_time current_utilization aggregate_id p =
      let start : PidState F = record {
        previous_error = float.lit 0 0;
        integral = float.lit 0 0;
        last_time = current_time;
      } in
      let state = get_item aggregate_id start p.state_by_aggregate in
      let elapsed = float.sub current_time state.last_time in
      let dt = if float.le elapsed (float.lit 0 0) then float.lit 1 4 else elapsed in
      let error = float.sub p.setpoint current_utilization in
      let integral = float.add state.integral (float.mul error dt) in
      let derivative = float.div (float.sub error state.previous_error) dt in
      let u_t =
        float.add (float.add (float.mul p.kp error) (float.mul p.ki integral))
          (float.mul p.kd derivative) in
      let fuzzy_state = classify_instability u_t in
      let next : PidState F = record {
        previous_error = error;
        integral = integral;
        last_time = current_time;
      } in
      (
        u_t,
        record p {
          state_by_aggregate = set_item aggregate_id next p.state_by_aggregate;
          latest_state = fuzzy_state;
          latest_state_by_aggregate = set_item aggregate_id fuzzy_state p.latest_state_by_aggregate;
        },
      )

  unfoldable pub get_latest_state : Option Text → PidGuardrailController F → FuzzyState F
  unfolding get_item stable_state
  get_latest_state none p = p.latest_state
  get_latest_state (some aggregate_id) p =
      get_item aggregate_id stable_state p.latest_state_by_aggregate
