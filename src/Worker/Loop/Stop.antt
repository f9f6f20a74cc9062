-- ===== src/Worker/Loop/Stop.antt =====
-- When the loop ends.
use cloud_commander.Prelude.{
  ℕ, zero, suc, ◌+◌, ◌<◌, ◌≡◌, refl, ap, ◌∙◌, ◌⊎◌, inl, inr, Bool, true, false, none, some, List,
  [], ◌∷◌, arith, ltb, if◌then◌else◌, Option-cases, length,
}
use cloud_commander.Float.{Float}
use cloud_commander.Errors.{Result, ok, err, Exc}
use cloud_commander.Security.HashChain.{Hasher}
use cloud_commander.Infrastructure.Database.{Db, OutboxRow}
use cloud_commander.Infrastructure.Repository.{Codec}
use cloud_commander.Infrastructure.Adapters.{CloudAdapter}
use cloud_commander.Worker.Records.{LibraryTexts, WorkerState}
use cloud_commander.Worker.Outbox.{claim_batch}
use cloud_commander.Worker.Batch.{process_rows, process_next_batch}
use cloud_commander.Worker.Loop.{sleeps, run_loop, Round, poll, run}

-- From the test `k` on the event is found set at the `n`-th test and at none before.
abbrev pub FirstStop : (ℕ → Bool) → ℕ → ℕ → Type 0
FirstStop stopped zero k = stopped k ≡ true
FirstStop stopped (suc n) k = (stopped k ≡ false) × FirstStop stopped n (suc k)

module _ {St : Type 0} (turn : ℕ → St → Result Bool × St) where
  loop_ends :
      (stopped : ℕ → Bool) (fuel k : ℕ) (s : St) (slept : ℕ)
      → stopped k ≡ true
      → run_loop stopped turn (suc fuel) k s slept ≡ some (s, slept)
  unfolding run_loop
  loop_ends stopped fuel k s slept f = rw (f, run_loop) refl

  loop_turns :
      (stopped : ℕ → Bool) (fuel k : ℕ) (s s' : St) (r : Result Bool) (slept : ℕ)
      → stopped k ≡ false
      → turn k s ≡ (r, s')
      → run_loop stopped turn (suc fuel) k s slept
        ≡ run_loop stopped turn fuel (suc k) s' (if sleeps r then suc slept else slept)
  unfolding run_loop
  loop_turns stopped fuel k s s' r slept f h = rw (f, h, run_loop) refl

list-cases : {A : Type 0} (xs : List A) → (xs ≡ []) ⊎ ((x : A) × (ys : List A) × (xs ≡ x ∷ ys))
list-cases [] = inl refl
list-cases (x ∷ xs) = inr (x, xs, refl)

length-positive : {A : Type 0} (x : A) (xs : List A) → ltb 0 (length (x ∷ xs)) ≡ true
length-positive x xs = ground arith

-- `n` turns of the worker from turn `k` on, which take the state `s` to `t` with `m` sleeps: a turn
-- that gets no connection or claims nothing sleeps, one that claims entries processes them and does
-- not.
pub data Turns (F J A : Type 0) ⦃float : Float F⦄ ⦃hasher : Hasher J⦄ ⦃codec : Codec F J⦄
    ⦃adapters : CloudAdapter F A⦄ ⦃texts : LibraryTexts⦄ (rounds : ℕ → Round F J)
    : ℕ → ℕ → Db F J × WorkerState F A → Db F J × WorkerState F A → ℕ → Type 0 where
  no_turn : {k : ℕ} {s : Db F J × WorkerState F A} → Turns F J A rounds k 0 s s 0
  failed_turn :
      {k n m : ℕ} {s t : Db F J × WorkerState F A} {x : Exc}
      → (rounds k).failure ≡ some x
      → Turns F J A rounds (suc k) n s t m
      → Turns F J A rounds k (suc n) s t (suc m)
  idle_turn :
      {k n m : ℕ} {db : Db F J} {s : WorkerState F A} {t : Db F J × WorkerState F A}
      → (rounds k).failure ≡ none
      → (claim_batch 10 (rounds k).locked (rounds k).now db).0 ≡ []
      → Turns F J A rounds (suc k) n ((claim_batch 10 (rounds k).locked (rounds k).now db).1, s) t m
      → Turns F J A rounds k (suc n) (db, s) t (suc m)
  busy_turn :
      {k n m : ℕ} {db : Db F J} {s : WorkerState F A} {t : Db F J × WorkerState F A}
      {row : OutboxRow} {rows : List OutboxRow}
      → (rounds k).failure ≡ none
      → (claim_batch 10 (rounds k).locked (rounds k).now db).0 ≡ row ∷ rows
      → Turns F J A rounds
          (suc k)
          n
          (process_rows
            (rounds k).at
            (row ∷ rows)
            (claim_batch 10 (rounds k).locked (rounds k).now db).1
            s)
          t
          m
      → Turns F J A rounds k (suc n) (db, s) t m

module _ {F J A : Type 0} ⦃float : Float F⦄ ⦃hasher : Hasher J⦄ ⦃codec : Codec F J⦄
    ⦃adapters : CloudAdapter F A⦄ ⦃texts : LibraryTexts⦄ (rounds : ℕ → Round F J) where
  poll-failed :
      (k : ℕ) (s : Db F J × WorkerState F A) (x : Exc)
      → (rounds k).failure ≡ some x
      → poll rounds k s ≡ (err x, s)
  unfolding poll
  poll-failed k (db, s) x h = rw (h, poll) refl

  poll-claims :
      (k : ℕ) (db : Db F J) (s : WorkerState F A) (rows : List OutboxRow)
      → (rounds k).failure ≡ none
      → (claim_batch 10 (rounds k).locked (rounds k).now db).0 ≡ rows
      → poll rounds k (db, s) ≡ (
        ok (ltb 0 (length rows)),
        process_rows (rounds k).at rows (claim_batch 10 (rounds k).locked (rounds k).now db).1 s,
      )
  unfolding poll process_next_batch
  poll-claims k db s rows h c = rw (h, c, poll, process_next_batch) refl

  loop-Turns :
      (stopped : ℕ → Bool) (n fuel k : ℕ) (s : Db F J × WorkerState F A) (slept : ℕ)
      → n < fuel
      → FirstStop stopped n k
      → (t : Db F J × WorkerState F A) × (m : ℕ) × Turns F J A rounds k n s t m
        × (run_loop stopped (poll rounds) fuel k s slept ≡ some (t, m + slept))
  unfolding process_rows
  loop-Turns stopped n zero k s slept few f = absurd (omega (arith, few))
  loop-Turns stopped zero (suc fuel) k s slept few f = (
    s,
    0,
    no_turn,
    loop_ends (poll rounds) stopped fuel k s slept f ∙ ap (λ z. some (s, z)) (omega arith),
  )
  loop-Turns stopped (suc n) (suc fuel) k (db, s) slept few f =
      let one = loop_turns (poll rounds) stopped fuel k (db, s) in
      let more : n < fuel = omega (arith, few) in
      elim (Option-cases (rounds k).failure) [
        | inr (x, h) ↦
            let (t, m, turns, ends) =
              loop-Turns stopped n fuel (suc k) (db, s) (suc slept) more f.1 in
            (
              t,
              suc m,
              failed_turn h turns,
              one (db, s) (err x) slept f.0 (poll-failed k (db, s) x h)
                  ∙ ends
                  ∙ ap (λ z. some (t, z)) (omega arith),
            )
        | inl h ↦
            let claim = claim_batch 10 (rounds k).locked (rounds k).now db in
            elim (list-cases claim.0) [
              | inl c ↦
                  let (t, m, turns, ends) =
                    loop-Turns stopped n fuel (suc k) (claim.1, s) (suc slept) more f.1 in
                  (
                    t,
                    suc m,
                    idle_turn h c turns,
                    one (claim.1, s) (ok false) slept f.0 (poll-claims k db s [] h c)
                        ∙ ends
                        ∙ ap (λ z. some (t, z)) (omega arith),
                  )
              | inr (row, rows, c) ↦
                  let left = process_rows (rounds k).at (row ∷ rows) claim.1 s in
                  let (t, m, turns, ends) = loop-Turns stopped n fuel (suc k) left slept more f.1 in
                  (
                    t,
                    m,
                    busy_turn h c turns,
                    one left (ok true) slept f.0 (
                          poll-claims k db s (row ∷ rows) h c
                          ∙ ap (λ b. (ok b, left)) (length-positive row rows))
                        ∙ ends,
                  )
            ]
      ]

  -- The polling loop ends when the stop event is first found set, whatever its turns raise: with
  -- one unit of fuel more than there are turns before, it returns the state that these turns lead
  -- to, and it has slept once for each of them that got no connection or claimed no entry.
  pub run-stops :
      (stopped : ℕ → Bool) (n fuel : ℕ) (start : Db F J × WorkerState F A)
      → n < fuel
      → FirstStop stopped n 0
      → (t : Db F J × WorkerState F A) × (slept : ℕ) × Turns F J A rounds 0 n start t slept
        × (run stopped rounds fuel start ≡ some (t, slept))
  unfolding run
  run-stops stopped n fuel start enough first =
      let (t, m, turns, ends) = loop-Turns stopped n fuel 0 start 0 enough first in
      (t, m, turns, ends ∙ ap (λ z. some (t, z)) (omega arith))
