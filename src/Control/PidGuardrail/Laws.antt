-- ===== src/Control/PidGuardrail/Laws.antt =====
-- What an observation changes.
use cloud_commander.Prelude.{◌≡◌, sym, ◌∙◌, ◌≢◌, inl, inr, some, List, [], ◌∷◌, Bool-cases}
use cloud_commander.Text.{Text, text_eq}
use cloud_commander.Text.Laws.{text_eq_refl, text_eq→eq}
use cloud_commander.Float.{Float}
use cloud_commander.Control.PidGuardrail.{
  PidGuardrailController, get_item, set_item, classify_instability, observe_resource_change,
  get_latest_state, stable_state,
}

module _ {A : Type 0} where
  get_item-set_item_same :
      (k : Text) (d v : A) (items : List (Text × A)) → get_item k d (set_item k v items) ≡ v
  unfolding get_item set_item
  get_item-set_item_same k d v [] = rw (text_eq_refl k)
  get_item-set_item_same k d v ((k', w) ∷ items) = elim (Bool-cases (text_eq k' k)) [
    | inl e ↦ rw (e, set_item) (rw (e, get_item))
    | inr e ↦ rw (e, set_item) (rw (e, get_item) (get_item-set_item_same k d v items))
  ]

  get_item-set_item_other :
      (k q : Text) (d v : A) (items : List (Text × A))
      → q ≢ k
      → get_item q d (set_item k v items) ≡ get_item q d items
  unfolding get_item set_item
  get_item-set_item_other k q d v [] n = elim (Bool-cases (text_eq k q)) [
    | inl e ↦ absurd (n (sym (text_eq→eq k q e)))
    | inr e ↦ rw (e, get_item)
  ]
  get_item-set_item_other k q d v ((k', w) ∷ items) n = elim (Bool-cases (text_eq k' k)) [
    | inl e ↦ elim (Bool-cases (text_eq k' q)) [
      | inl e' ↦ absurd (n (sym (text_eq→eq k' q e') ∙ text_eq→eq k' k e))
      | inr e' ↦ rw (e, set_item) (rw (e', get_item))
    ]
    | inr e ↦
        let ih = get_item-set_item_other k q d v items n in
        elim (Bool-cases (text_eq k' q)) [
          | inl e' ↦ rw (e, set_item) (rw (e', get_item))
          | inr e' ↦ rw (e, set_item) (rw (e', get_item) ih)
        ]
  ]

module _ {F : Type 0} ⦃float : Float F⦄ where
  -- After an observation the latest state of the aggregate is the classification of the signal that
  -- was returned, and that of every other aggregate is what it was.
  pub get_latest_state-observe :
      (now utilization : F) (aggregate : Text) (p : PidGuardrailController F)
      → let (u, p') = observe_resource_change now utilization aggregate p in
        (get_latest_state (some aggregate) p' ≡ classify_instability u)
        × ((b : Text) → b ≢ aggregate → get_latest_state (some b) p' ≡ get_latest_state (some b) p)
  unfolding observe_resource_change get_latest_state
  get_latest_state-observe now utilization aggregate p = (
    get_item-set_item_same aggregate stable_state _ p.latest_state_by_aggregate,
    λ b n. get_item-set_item_other aggregate b stable_state _ p.latest_state_by_aggregate n,
  )
