-- ===== src/Worker/Outbox/Lease.antt =====
-- A claimed entry belongs to one worker until its lease ends, and a settled one to none.
use cloud_commander.Prelude.{
  ℕ, ◌+◌, ◌≤◌, ◌≡◌, refl, sym, ap, ◌∙◌, ◌≢◌, ◌↔◌, inl, inr, Bool, true, false, List, [], ◌∷◌, arith,
  if◌then◌else◌, Bool-cases, In,
}
use cloud_commander.Uuid.{Uuid}
use cloud_commander.Infrastructure.Database.{OutboxRow, Db, any}
use cloud_commander.Worker.Outbox.{
  due, claimed, is_claimed, claim_row, claim_rows, returning, claim_batch, processing_lease_timeout,
}
use cloud_commander.Worker.Outbox.Claim.{claimed_lem}

pub is_claimed-In :
    (ids : List Uuid) (r : OutboxRow) → (is_claimed ids r ≡ true) ↔ In r.event_id ids
unfolding any
is_claimed-In [] r = (λ h. cc, λ i. absurd i)
is_claimed-In (id ∷ ids) r =
    let ih = is_claimed-In ids r in (λ h. ground (arith, ih), λ i. ground (arith, ih))

pub returning-In :
    (ids : List Uuid) (now : ℕ) (x : OutboxRow) (rows : List OutboxRow)
    → In x (returning ids now rows)
    → (r : OutboxRow) × In r rows × (is_claimed ids r ≡ true) × (x ≡ claim_row now r)
unfolding returning
returning-In ids now x [] i = absurd i
returning-In ids now x (r ∷ rows) i = elim (Bool-cases (is_claimed ids r)) [
  | inl e ↦ elim (rw (e, returning) at i) [
    | inl same ↦ (r, inl refl, e, same)
    | inr there ↦
        let (q, inside, c, same) = returning-In ids now x rows there in (q, inr inside, c, same)
  ]
  | inr e ↦
      let (q, inside, c, same) = returning-In ids now x rows (rw (e, returning) at i) in
      (q, inr inside, c, same)
]

claim_rows-In :
    (ids : List Uuid) (now : ℕ) (x : OutboxRow) (rows : List OutboxRow)
    → In x (claim_rows ids now rows)
    → (r : OutboxRow) × In r rows × (x ≡ (if is_claimed ids r then claim_row now r else r))
unfolding claim_rows
claim_rows-In ids now x [] i = absurd i
claim_rows-In ids now x (r ∷ rows) (inl e) = (r, inl refl, e)
claim_rows-In ids now x (r ∷ rows) (inr i) =
    let (q, inside, same) = claim_rows-In ids now x rows i in (q, inr inside, same)

-- While its lease runs, no entry under a claimed id is due.
leased :
    (ids : List Uuid) (now later : ℕ) (x : OutboxRow) (rows : List OutboxRow)
    → later ≤ now + processing_lease_timeout
    → In x.event_id ids
    → In x (claim_rows ids now rows)
    → due later x ≡ false
unfolding due
leased ids now later x rows h c i =
    let (r, inside, same) = claim_rows-In ids now x rows i in
    elim (Bool-cases (is_claimed ids r)) [
      | inl e ↦ let own : x ≡ claim_row now r = rw e at same in rw own (ground arith)
      | inr e ↦ let own : x ≡ r = rw e at same in cc (e, (is_claimed-In ids r).1 (rw own at c))
    ]

module _ {F J : Type 0} where
  -- Two claims with any sizes and locks, of which the second runs on the database that the first
  -- left, at most 300 seconds after it, never return entries of one event.
  pub claim_batch_exclusive :
      (size size' : ℕ) (locked locked' : OutboxRow → Bool) (now later : ℕ) (db : Db F J)
      (r r' : OutboxRow)
      → later ≤ now + processing_lease_timeout
      → let (mine, db') = claim_batch size locked now db in
        In r mine → In r' (claim_batch size' locked' later db').0 → r.event_id ≢ r'.event_id
  unfolding claim_batch
  claim_batch_exclusive size size' locked locked' now later db r r' h i i' same =
      let ids = claimed size locked now db.outbox in
      let rows' = claim_rows ids now db.outbox in
      let (q, there, c, e) = returning-In ids now r db.outbox i in
      let (q', there', c', e') =
        returning-In (claimed size' locked' later rows') later r' rows' i' in
      let (x, free, at) =
        (claimed_lem size' locked' later rows').1 q'.event_id ((is_claimed-In _ q').0 c') in
      let one : x.event_id ≡ q.event_id =
        sym at ∙ sym (ap (λ z. z.event_id) e') ∙ sym same ∙ ap (λ z. z.event_id) e in
      let mine : In x.event_id ids = rw one ((is_claimed-In ids q).0 c) in
      cc (leased ids now later x db.outbox h mine free.0, free.1.0)
