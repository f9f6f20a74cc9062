-- ===== src/Api/Telemetry/Latest.antt =====
-- What an alert of the worker does to the guardrail state that the route answers.
use cloud_commander.Prelude.{
  ℕ, ◌<◌, ◌≡◌, refl, inl, inr, Bool, true, ◌&&◌, some, List, [], ◌∷◌, arith, leb, ◌==◌,
  if◌then◌else◌, Bool-cases, All,
}
use cloud_commander.Text.{Text}
use cloud_commander.Uuid.{Uuid}
use cloud_commander.Float.{Float}
use cloud_commander.Infrastructure.Database.{Db}
use cloud_commander.Infrastructure.Repository.{insert_guardrail_alert}
use cloud_commander.Worker.Outbox.{limit}
use cloud_commander.Api.Telemetry.{
  insert_descending, select_descending, is_alert, alert_time, get_node_guardrail_state,
}

module _ {A : Type 0} (key : A → ℕ) where
  insert_descending-All :
      (P : A → Type 0) (a : A) (rows : List A)
      → P a
      → All P rows
      → All P (insert_descending key a rows)
  unfolding insert_descending
  insert_descending-All P a [] p h = (p, tt)
  insert_descending-All P a (b ∷ rows) p h = elim (Bool-cases (leb (key b) (key a))) [
    | inl e ↦ rw (e, insert_descending) (p, h)
    | inr e ↦ rw (e, insert_descending) (h.0, insert_descending-All P a rows p h.1)
  ]

  -- What holds of the rows that pass the test holds of what is selected.
  select_descending-All :
      (test : A → Bool) (P : A → Type 0) (rows : List A)
      → All (λ a. test a ≡ true → P a) rows
      → All P (select_descending test key rows)
  unfolding select_descending
  select_descending-All test P [] h = tt
  select_descending-All test P (a ∷ rows) h =
      let rest = select_descending-All test P rows h.1 in
      elim (Bool-cases (test a)) [
        | inl e ↦ rw (e, select_descending) (insert_descending-All P a _ (h.0 e) rest)
        | inr e ↦ rw (e, select_descending) rest
      ]

  -- A row that is not below the others comes first.
  insert_descending-first :
      (a : A) (rows : List A)
      → All (λ b. key b < key a) rows
      → insert_descending key a rows ≡ a ∷ rows
  unfolding insert_descending
  insert_descending-first a [] h = refl
  insert_descending-first a (b ∷ rows) h = ground arith

module _ {F J : Type 0} ⦃float : Float F⦄ where
  -- An alert with a time after those of its node is what the guardrail route answers for the node,
  -- and what it answers for other nodes is what it was.
  pub get_node_guardrail_state-alert :
      (tenant node other_tenant other_node : Uuid) (severity reason : Text) (value : F) (at : ℕ)
      (db : Db F J)
      → All (λ a. is_alert tenant node a ≡ true → alert_time a < at) db.alerts
      → get_node_guardrail_state other_node other_tenant
          (insert_guardrail_alert tenant node severity value reason at db)
        ≡ (if tenant == other_tenant && node == other_node
            then record {
              severity = severity;
              metric_value = value;
              reason = reason;
              timestamp_utc_ms = some at;
            }
            else get_node_guardrail_state other_node other_tenant db)
  unfolding get_node_guardrail_state insert_guardrail_alert limit
  get_node_guardrail_state-alert tenant node t n severity reason value at db later =
      elim (Bool-cases (tenant == t && node == n)) [
        | inl e ↦
            let same_tenant : tenant ≡ t = ground arith in
            let same_node : node ≡ n = ground arith in
            let below =
              select_descending-All alert_time (is_alert t n) (λ a. alert_time a < at) db.alerts
                (rw⁻¹ (same_tenant, same_node) later) in
            rw (e, select_descending) (rw (insert_descending-first alert_time _ _ below) refl)
        | inr e ↦ rw (e, select_descending) refl
      ]
