-- ===== src/Security/HashChain/Laws.antt =====
-- What a verified hash shows.
use cloud_commander.Prelude.{
  ℕ, ◌≡◌, refl, sym, ◌∙◌, ◌≢◌, ◌↔◌, ◌⊎◌, inl, inr, true, Option, none, some, arith, Bool-cases,
}
use cloud_commander.Text.{Text, text_eq}
use cloud_commander.Text.Laws.{text_eq→eq, text_eq-false, text_eq_refl}
use cloud_commander.Uuid.{Uuid, IsUuid}
use cloud_commander.Errors.{ok, >>-eq-ok}
use cloud_commander.Security.HashChain.{
  Hasher, is_hex64, raw_text, generate_event_hash, check_previous, check_current, verify_chain,
}
use cloud_commander.Security.HashChain.Raw.{IsHash, SameFields, raw_text-injective}

check_previous-eq-ok : (p : Option Text) → (check_previous p ≡ ok tt) ↔ IsHash p
unfolding check_previous
check_previous-eq-ok none = (λ h. tt, λ h. refl)
check_previous-eq-ok (some s) = ground arith

check_current-eq-ok :
    (h expected : Text) (seq : ℕ)
    → (check_current h expected seq ≡ ok tt) ↔ ((is_hex64 h ≡ true) × (h ≡ expected))
unfolding check_current
check_current-eq-ok h expected seq =
    (λ e. ground (arith, text_eq→eq h expected), λ e. ground (arith, e.1, text_eq_refl h))

module _ {J : Type 0} ⦃hasher : Hasher J⦄ where
  pub generate_event_hash-IsHash :
      (p : Option Text) (j : J) (time seq : ℕ) (tenant agg : Uuid)
      → ((t : Text) → is_hex64 (hasher.sha256_hex t) ≡ true)
      → is_hex64 (generate_event_hash p j time seq tenant agg) ≡ true
  unfolding generate_event_hash
  generate_event_hash-IsHash p j time seq tenant agg digest = digest _

  -- A record verifies exactly if its previous hash is none or 64 hex digits, its event hash is 64
  -- hex digits, and the event hash is the one generated from its fields and the previous hash.
  pub verify_chain-eq-ok :
      (p : Option Text) (h : Text) (j : J) (time seq : ℕ) (tenant agg : Uuid)
      → (verify_chain p h j time seq tenant agg ≡ ok tt)
        ↔ (IsHash p × (is_hex64 h ≡ true) × (h ≡ generate_event_hash p j time seq tenant agg))
  unfolding verify_chain
  verify_chain-eq-ok p h j time seq tenant agg =
      let both =
        >>-eq-ok (check_previous p)
          (check_current h (generate_event_hash p j time seq tenant agg) seq) tt in
      let previous = check_previous-eq-ok p in
      let current = check_current-eq-ok h (generate_event_hash p j time seq tenant agg) seq in
      (
        λ e. (previous.0 (both.0 e).0, (current.0 (both.0 e).1).0, (current.0 (both.0 e).1).1),
        λ g. both.1 (previous.1 g.0, current.1 (g.1, g.2)),
      )

  -- Two records with 128-bit ids that verify under one event hash agree on tenant, aggregate,
  -- serialised payload, time and sequence number, and on the previous hash where none counts as 64
  -- zeros, or they show two texts with the same SHA-256 digest.
  pub tamper_evident :
      (h : Text) (p p' : Option Text) (j j' : J) (time time' seq seq' : ℕ)
      (tenant tenant' agg agg' : Uuid)
      → IsUuid tenant
      → IsUuid tenant'
      → IsUuid agg
      → IsUuid agg'
      → verify_chain p h j time seq tenant agg ≡ ok tt
      → verify_chain p' h j' time' seq' tenant' agg' ≡ ok tt
      → SameFields p j time seq tenant agg p' j' time' seq' tenant' agg'
        ⊎ ((raw_text p j time seq tenant agg ≢ raw_text p' j' time' seq' tenant' agg')
            × (hasher.sha256_hex (raw_text p j time seq tenant agg)
                ≡ hasher.sha256_hex (raw_text p' j' time' seq' tenant' agg')))
  tamper_evident h p p' j j' time time' seq seq' tenant tenant' agg agg' ht ht' ha ha' v v' =
      let good = (verify_chain-eq-ok p h j time seq tenant agg).0 v in
      let good' = (verify_chain-eq-ok p' h j' time' seq' tenant' agg').0 v' in
      elim (Bool-cases
        (text_eq (raw_text p j time seq tenant agg) (raw_text p' j' time' seq' tenant' agg'))) [
          | inl e ↦ inl (
              raw_text-injective p p' j j' time time' seq seq' tenant tenant' agg agg' good.0
                good'.0 ht ht' ha ha' (text_eq→eq _ _ e))
          | inr e ↦ inr (text_eq-false _ _ e, unfold generate_event_hash in sym good.2 ∙ good'.2)
        ]

  -- A hash generated for an event verifies, if the previous hash is none or 64 hex digits and
  -- digests are 64 hex digits.
  pub verify_chain-generate :
      (p : Option Text) (j : J) (time seq : ℕ) (tenant agg : Uuid)
      → ((t : Text) → is_hex64 (hasher.sha256_hex t) ≡ true)
      → IsHash p
      → verify_chain p (generate_event_hash p j time seq tenant agg) j time seq tenant agg ≡ ok tt
  verify_chain-generate p j time seq tenant agg digest h =
      (verify_chain-eq-ok p _ j time seq tenant agg).1
        (h, generate_event_hash-IsHash p j time seq tenant agg digest, refl)
