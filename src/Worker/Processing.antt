-- ===== src/Worker/Processing.antt =====
-- app/worker/projection_worker.py: what a worker makes of the outcome of an intent.
pub mod Outcome
use cloud_commander.Prelude.{
  Bool, false, not, ◌||◌, Option, none, some, [], ◌∷◌, if◌then◌else◌, length,
}
use cloud_commander.Text.{Text, codes, text_eq, starts_with, strip, from_index}
use cloud_commander.Worker.Reconciler.{compensating_prefix}

-- `strategy or None`
abbrev pub or_none : Text → Option Text
or_none [] = none
or_none (c ∷ s) = some (c ∷ s)

unfoldable pub extract_compensation_strategy : Text → Option Text
unfolding starts_with strip from_index
extract_compensation_strategy reconcile_status =
    if not (starts_with compensating_prefix reconcile_status)
    then none
    else or_none (strip (from_index (length compensating_prefix) reconcile_status))

unfoldable pub should_apply_projection : Text → Option Text → Bool
unfolding text_eq
should_apply_projection reconcile_status none =
    text_eq reconcile_status (codes "completed")
    || text_eq reconcile_status (codes "not_applicable")
should_apply_projection reconcile_status (some reconcile_error) = false
