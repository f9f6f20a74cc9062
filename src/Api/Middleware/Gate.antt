-- ===== src/Api/Middleware/Gate.antt =====
-- Who passes the gate, and which exceptions do.
use cloud_commander.Prelude.{
  ℕ, zero, suc, ◌^◌, ◌≤◌, ◌<◌, ◌≡◌, refl, sym, ap, ◌∙◌, ◌↔◌, inl, inr, true, false, List, [], ◌∷◌,
  arith, if◌then◌else◌, Bool-cases, length, All,
}
use cloud_commander.Text.{Text, contains}
use cloud_commander.Float.{Float, IsRate}
use cloud_commander.Errors.{
  Result, ok, err, Exc, unauthorized, invalid_transition, hash_verification, concurrency_conflict,
  idempotency_key_in_use, data_corruption, validation, unique_violation, check_violation,
  foreign_key_violation, data_error, http, plain, Result-cases,
}
use cloud_commander.Control.Backpressure.{
  BackpressureManager, drop_before, prune, get_snapshot, is_overloaded,
}
use cloud_commander.Control.Backpressure.Laws.{cutoff_of}
use cloud_commander.Worker.Records.{LibraryTexts}
use cloud_commander.Api.Middleware.{
  LibraryClasses, is_http, is_bad_value, answer_of, mutating_methods, admit, dispatch,
}

-- What a list comes to when it is empty, and when it is not
module _ {F : Type 0} ⦃float : Float F⦄ where
  drop_before-eq-nil :
      (cutoff : F) (times : List F)
      → (drop_before cutoff times ≡ []) ↔ All (λ t. float.lt t cutoff ≡ true) times
  unfolding drop_before
  drop_before-eq-nil cutoff [] = (λ h. tt, λ h. refl)
  drop_before-eq-nil cutoff (t ∷ times) =
      let ih = drop_before-eq-nil cutoff times in
      elim (Bool-cases (float.lt t cutoff)) [
        | inl e ↦ rw (e, drop_before) (λ h. (refl, ih.0 h), λ a. ih.1 a.1)
        | inr e ↦ rw (e, drop_before) (λ h. cc, λ a. cc)
      ]

  length-drop_before :
      (cutoff : F) (times : List F) → length (drop_before cutoff times) ≤ length times
  unfolding drop_before
  length-drop_before cutoff [] = omega arith
  length-drop_before cutoff (t ∷ times) = ground (arith, length-drop_before cutoff times)

length-eq-zero : {A : Type 0} (xs : List A) → (length xs ≡ 0) ↔ (xs ≡ [])
length-eq-zero [] = (λ h. refl, λ h. refl)
length-eq-zero (x ∷ xs) = (λ h. absurd (omega (arith, h)), λ h. cc)

-- Two steps of an equivalence
both : {A B C : Type 0} → A ↔ B → B ↔ C → A ↔ C
both h k = (λ a. k.0 (h.0 a), λ c. h.1 (k.1 c))

module _ {F : Type 0} ⦃float : Float F⦄ (rates : IsRate F) where
  -- Without completions the utilisation is one with an arrival in the window, and nought with none.
  abbrev unserved_rho : ℕ → ℕ → F
  unserved_rho arrived w =
      let lambda_rate = float.div (float.lit arrived 0) (float.lit w 0) in
      let mu_rate = float.div (float.lit 0 0) (float.lit w 0) in
      if float.eq mu_rate (float.lit 0 0)
      then if float.lt (float.lit 0 0) lambda_rate then float.lit 1 0 else float.lit 0 0
      else float.div lambda_rate mu_rate

  unserved_rho-limit :
      (limit : F) (arrived w : ℕ)
      → arrived ≤ 2 ^ 53
      → 0 < w
      → w ≤ 1000
      → float.le limit (float.lit 1 0) ≡ true
      → float.le limit (float.lit 0 0) ≡ false
      → (float.le limit (unserved_rho arrived w) ≡ false) ↔ (arrived ≡ 0)
  unserved_rho-limit limit zero w few pos short one nought =
      rw (rates.zero_rate w pos, rates.zero_rate_not_positive w pos) (λ h. refl, λ h. nought)
  unserved_rho-limit limit (suc n) w few pos short one nought =
      rw (rates.zero_rate w pos, rates.positive_rate (suc n) w (omega arith) few pos short)
        (λ h. cc, λ h. absurd (omega (arith, h)))

  is_overloaded-unserved :
      (now : F) (m : BackpressureManager F)
      → m.completions ≡ []
      → length m.arrivals ≤ 2 ^ 53
      → 0 < m.window_seconds
      → m.window_seconds ≤ 1000
      → float.le m.limit_rho (float.lit 1 0) ≡ true
      → float.le m.limit_rho (float.lit 0 0) ≡ false
      → ((is_overloaded now m).0 ≡ false)
        ↔ All (λ t. float.lt t (cutoff_of now m) ≡ true) m.arrivals
  unfolding is_overloaded get_snapshot prune drop_before
  is_overloaded-unserved now m unserved few pos short one nought =
      let times = drop_before (cutoff_of now m) m.arrivals in
      let rest = length-drop_before (cutoff_of now m) m.arrivals in
      let rate =
        unserved_rho-limit m.limit_rho (length times) m.window_seconds (omega (arith, rest, few))
          pos short one nought in
      rw unserved
        (both rate (both (length-eq-zero times) (drop_before-eq-nil (cutoff_of now m) m.arrivals)))

  -- Where no completion has been recorded, a request that mutates passes the gate exactly if every
  -- arrival lies before the window, if the limit is above zero and at most one, the window is at
  -- most 1000 seconds, and rates of doubles are zero or positive as their counts are.
  pub admit-unserved :
      (method : Text) (now₁ now₂ : F) (m : BackpressureManager F)
      → contains method mutating_methods ≡ true
      → m.completions ≡ []
      → length m.arrivals ≤ 2 ^ 53
      → 0 < m.window_seconds
      → m.window_seconds ≤ 1000
      → float.le m.limit_rho (float.lit 1 0) ≡ true
      → float.le m.limit_rho (float.lit 0 0) ≡ false
      → ((admit method now₁ now₂ m).0 ≡ ok tt)
        ↔ All (λ t. float.lt t (cutoff_of now₁ m) ≡ true) m.arrivals
  unfolding admit
  admit-unserved method now₁ now₂ m mutating unserved few pos short one nought =
      let gate = is_overloaded-unserved now₁ m unserved few pos short one nought in
      elim (Bool-cases (is_overloaded now₁ m).0) [
        | inl e ↦ rw (mutating, e, admit) (λ h. cc, λ a. cc (gate.1 a, e))
        | inr e ↦ rw (mutating, e, admit) (λ h. gate.0 e, λ a. refl)
      ]

is_bad_value-http : ⦃classes : LibraryClasses⦄ (x : Exc) → is_http x ≡ true → is_bad_value x ≡ false
unfolding is_http is_bad_value
is_bad_value-http (http status m) h = refl
is_bad_value-http (unauthorized m) h = cc
is_bad_value-http (invalid_transition m) h = cc
is_bad_value-http (hash_verification m) h = cc
is_bad_value-http (concurrency_conflict m) h = cc
is_bad_value-http (idempotency_key_in_use m) h = cc
is_bad_value-http (data_corruption m) h = cc
is_bad_value-http validation h = cc
is_bad_value-http (unique_violation m) h = cc
is_bad_value-http (check_violation m) h = cc
is_bad_value-http (foreign_key_violation m) h = cc
is_bad_value-http data_error h = cc
is_bad_value-http (plain m) h = cc

module _ {R : Type 0} ⦃classes : LibraryClasses⦄ ⦃texts : LibraryTexts⦄ where
  answer_of-err : (r : Result R) (x : Exc) → answer_of r ≡ err x → is_bad_value x ≡ false
  unfolding answer_of
  answer_of-err (ok r) x h = cc
  answer_of-err (err y) x h = elim (Bool-cases (is_http y)) [
    | inl e ↦
        let same : y ≡ x = cc (rw (e, answer_of) at h) in
        ap is_bad_value (sym same) ∙ is_bad_value-http y e
    | inr e ↦ elim (Bool-cases (is_bad_value y)) [
      | inl b ↦ cc (rw (e, b, answer_of) at h)
      | inr b ↦ let same : y ≡ x = cc (rw (e, b, answer_of) at h) in ap is_bad_value (sym same) ∙ b
    ]
  ]

module _ {F R D : Type 0} ⦃float : Float F⦄ ⦃classes : LibraryClasses⦄ ⦃texts : LibraryTexts⦄ where
  dispatch-err :
      (method : Text) (now₁ now₂ : F)
      (call_next : BackpressureManager F → D → Result R × (BackpressureManager F × D))
      (m : BackpressureManager F) (d : D) (x : Exc)
      → (dispatch method now₁ now₂ call_next m d).0 ≡ err x
      → is_bad_value x ≡ false
  unfolding dispatch
  dispatch-err method now₁ now₂ call_next m d x h =
      elim (Result-cases (admit method now₁ now₂ m).0) [
        | inl (_, e) ↦
            answer_of-err (call_next (admit method now₁ now₂ m).1 d).0 x (rw (e, dispatch) at h)
        | inr (y, e) ↦ answer_of-err {R = R} (err y) x (rw (e, dispatch) at h)
      ]
