-- ===== src/Tests/Fixtures.antt =====
-- Concrete numbers, JSON values and hashes for the interfaces, and a small log.
use native.Mathlib.Nat.{
  zero-div, le-div_iff_mul-le, mul-le-mul_right, le_of_mul-le-mul_right, lt_of_mul-lt-mul_right,
  pow-suc,
}
use cloud_commander.Prelude.{
  ℕ, zero, suc, ◌+◌, ◌-◌, ◌*◌, ◌/◌, ◌%◌, ◌^◌, ◌≤◌, ◌<◌, ◌≡◌, refl, Bool, true, false, not, ◌&&◌,
  Option, none, some, [], ◌∷◌, arith, leb, leb-true, leb-false,
}
use cloud_commander.Text.{Text, codes}
use cloud_commander.Uuid.{hex_digit, hex_onto}
use cloud_commander.Uuid.Laws.{length-hex_onto}
use cloud_commander.Float.{Float, IsOrdered, IsRate}
use cloud_commander.Security.HashChain.{Hasher, is_hex64, all_hex, is_hex}
use cloud_commander.Domain.Schemas.{
  ResourceAllocationRequested, DependencyEdgeProposed, DriftSeverity, ExternalDriftResolved,
  RollbackInitiated, GuardrailObservationRecorded, GuardrailThresholdBreached,
  CompensationStrategySelected, EventPayload, allocation_requested, edge_proposed, aggregate_frozen,
  drift_resolved, rollback_initiated, observation_recorded, threshold_breached, strategy_selected,
}
use cloud_commander.Infrastructure.Repository.{Codec}
use cloud_commander.Infrastructure.Repository.Read.{ReadsBack}
use cloud_commander.Infrastructure.Repository.Conflict.{Digests}

-- A decimal fraction: `(m, k)` is `m / 10 ^ k`.
abbrev pub Fraction : Type 0
Fraction = ℕ × ℕ

abbrev pub fraction_le : Fraction → Fraction → Bool
fraction_le (m, k) (n, j) = leb (m * 10 ^ j) (n * 10 ^ k)

instance abbrev pub fractions : Float Fraction
fractions = record {
  lit = λ m k. (m, k);
  add = λ x y. (x.0 * 10 ^ y.1 + y.0 * 10 ^ x.1, x.1 + y.1);
  sub = λ x y. (x.0 * 10 ^ y.1 - y.0 * 10 ^ x.1, x.1 + y.1);
  mul = λ x y. (x.0 * y.0, x.1 + y.1);
  div = λ x y. (x.0 * 10 ^ y.1 * 1000 / y.0, x.1 + 3);
  lt = λ x y. not (fraction_le y x);
  le = fraction_le;
  eq = λ x y. fraction_le x y && fraction_le y x;
  finite = λ x. true;
  abs = λ x. x;
  minus_inf = (0, 0);
  fixed = λ k x. [];
}

ten_pow-pos : (k : ℕ) → 0 < 10 ^ k
ten_pow-pos zero = omega arith
ten_pow-pos (suc k) = rw pow-suc (omega (arith, ten_pow-pos k))

fraction_le_trans :
    (x y z : Fraction) → fraction_le x y ≡ true → fraction_le y z ≡ true → fraction_le x z ≡ true
fraction_le_trans (m, k) (n, j) (p, i) h g =
    let a = mul-le-mul_right (10 ^ i) (leb-true (m * 10 ^ j) (n * 10 ^ k) h) in
    let b = mul-le-mul_right (10 ^ k) (leb-true (n * 10 ^ i) (p * 10 ^ j) g) in
    let c : (m * 10 ^ i) * 10 ^ j ≤ (p * 10 ^ k) * 10 ^ j = omega (arith, a, b) in
    let d : m * 10 ^ i ≤ p * 10 ^ k = le_of_mul-le-mul_right c (ten_pow-pos j) in ground arith

fraction_lt_irrefl : (x : Fraction) → fractions.lt x x ≡ false
fraction_lt_irrefl (m, k) = ground arith

fraction_lt_trans :
    (x y z : Fraction) → fractions.lt x y ≡ true → fractions.lt y z ≡ true → fractions.lt x z ≡ true
fraction_lt_trans (m, k) (n, j) (p, i) h g =
    let a : m * 10 ^ j < n * 10 ^ k = leb-false _ _ (ground arith) in
    let b : n * 10 ^ i < p * 10 ^ j = leb-false _ _ (ground arith) in
    let c : m * 10 ^ j * 10 ^ i ≤ n * 10 ^ k * 10 ^ i =
      mul-le-mul_right (10 ^ i) (omega (arith, a)) in
    let d : suc (n * 10 ^ i) * 10 ^ k ≤ p * 10 ^ j * 10 ^ k =
      mul-le-mul_right (10 ^ k) (omega (arith, b)) in
    let f : suc (m * 10 ^ i * 10 ^ j) ≤ p * 10 ^ k * 10 ^ j = omega (arith, c, d, ten_pow-pos k) in
    let e : m * 10 ^ i < p * 10 ^ k = lt_of_mul-lt-mul_right (10 ^ j) f in ground arith

fraction_le-lt_trans :
    (x y z : Fraction) → fraction_le x y ≡ true → fractions.lt y z ≡ true → fractions.lt x z ≡ true
fraction_le-lt_trans (m, k) (n, j) (p, i) h g =
    let a = leb-true (m * 10 ^ j) (n * 10 ^ k) h in
    let b : n * 10 ^ i < p * 10 ^ j = leb-false _ _ (ground arith) in
    let c = mul-le-mul_right (10 ^ i) a in
    let d : suc (n * 10 ^ i) * 10 ^ k ≤ p * 10 ^ j * 10 ^ k =
      mul-le-mul_right (10 ^ k) (omega (arith, b)) in
    let f : suc (m * 10 ^ i * 10 ^ j) ≤ p * 10 ^ k * 10 ^ j = omega (arith, c, d, ten_pow-pos k) in
    let e : m * 10 ^ i < p * 10 ^ k = lt_of_mul-lt-mul_right (10 ^ j) f in ground arith

fraction_le_lem : (m k n j : ℕ) → m * 10 ^ j ≤ n * 10 ^ k → fraction_le (m, k) (n, j) ≡ true
fraction_le_lem m k n j h = ground arith

fraction_lt_le :
    (m k n j : ℕ) → fractions.lt (m, k) (n, j) ≡ true → fraction_le (m, k) (n, j) ≡ true
fraction_lt_le m k n j h = ground arith

fraction_eq_le :
    (m k n j : ℕ)
    → fractions.eq (m, k) (n, j) ≡ true
    → (fraction_le (m, k) (n, j) ≡ true) × (fraction_le (n, j) (m, k) ≡ true)
fraction_eq_le m k n j h = (ground arith, ground arith)

fraction_lt_total :
    (m k n j : ℕ) → fractions.lt (m, k) (n, j) ≡ false → fraction_le (n, j) (m, k) ≡ true
fraction_lt_total m k n j h = ground arith

pub fractions-IsOrdered : IsOrdered Fraction
fractions-IsOrdered = record {
  le_trans = fraction_le_trans;
  lt_irrefl = fraction_lt_irrefl;
  lt_trans = fraction_lt_trans;
  le-lt_trans = fraction_le-lt_trans;
  lt_le = λ (m, k) (n, j) h. fraction_lt_le m k n j h;
  eq_le = λ (m, k) (n, j) h. fraction_eq_le m k n j h;
  le_number = λ (m, k) (n, j) h. (ground arith, ground arith);
  lt_total = λ (m, k) (n, j) h g l. fraction_lt_total m k n j l;
  lit_le = λ m k n j h. fraction_le_lem m k n j h;
  lit_finite = λ m k h. refl;
}

no_rate : (w : ℕ) → 0 * 10 ^ 0 * 1000 / w ≡ 0
no_rate w = zero-div w

some_rate : (n w : ℕ) → 0 < n → 0 < w → w ≤ 1000 → 1 ≤ n * 10 ^ 0 * 1000 / w
some_rate n w some_events pos short = (le-div_iff_mul-le pos).1 (omega (arith, some_events, short))

pub fractions-IsRate : IsRate Fraction
fractions-IsRate = record {
  zero_rate = λ w pos. rw (no_rate w) refl;
  zero_rate_not_positive = λ w pos. rw (no_rate w) refl;
  positive_rate =
      λ n w some_events few pos short. ground (arith, some_rate n w some_events pos short);
}

-- JSON values, as far as payloads give rise to them
pub data Json : Type 0 where
  null : Json
  allocation_json : ResourceAllocationRequested Fraction → Json
  edge_json : DependencyEdgeProposed → Json
  frozen_json : DriftSeverity → Json → Json
  resolved_json : ExternalDriftResolved → Json
  rollback_json : RollbackInitiated → Json
  observation_json : GuardrailObservationRecorded Fraction → Json
  breach_json : GuardrailThresholdBreached Fraction → Json
  strategy_json : CompensationStrategySelected Fraction → Json

abbrev dump_json : EventPayload Fraction Json → Json
dump_json (allocation_requested p) = allocation_json p
dump_json (edge_proposed p) = edge_json p
dump_json (aggregate_frozen p) = frozen_json p.severity p.drift_details
dump_json (drift_resolved p) = resolved_json p
dump_json (rollback_initiated p) = rollback_json p
dump_json (observation_recorded p) = observation_json p
dump_json (threshold_breached p) = breach_json p
dump_json (strategy_selected p) = strategy_json p

abbrev parse_json : Json → Option (EventPayload Fraction Json)
parse_json null = none
parse_json (allocation_json p) = some (allocation_requested p)
parse_json (edge_json p) = some (edge_proposed p)
parse_json (frozen_json s d) = some (aggregate_frozen (record { severity = s; drift_details = d }))
parse_json (resolved_json p) = some (drift_resolved p)
parse_json (rollback_json p) = some (rollback_initiated p)
parse_json (observation_json p) = some (observation_recorded p)
parse_json (breach_json p) = some (threshold_breached p)
parse_json (strategy_json p) = some (strategy_selected p)

instance abbrev pub json_codec : Codec Fraction Json
json_codec = record { dump = dump_json; parse = parse_json }

parse_json-dump : (p : EventPayload Fraction Json) → parse_json (dump_json p) ≡ some p
parse_json-dump (allocation_requested p) = refl
parse_json-dump (edge_proposed p) = refl
parse_json-dump (aggregate_frozen p) = refl
parse_json-dump (drift_resolved p) = refl
parse_json-dump (rollback_initiated p) = refl
parse_json-dump (observation_recorded p) = refl
parse_json-dump (threshold_breached p) = refl
parse_json-dump (strategy_selected p) = refl

pub json_codec-ReadsBack : ReadsBack Fraction Json
json_codec-ReadsBack = record { parse-dump = parse_json-dump }

abbrev json_text : Json → Text
json_text null = codes "null"
json_text (frozen_json s d) = codes "frozen"
json_text _ = codes "other"

-- A sum in place of SHA-256, in 64 hex digits
abbrev checksum : ℕ → Text → ℕ
checksum acc [] = acc
checksum acc (c ∷ s) = checksum ((31 * acc + c) % 2 ^ 61) s

instance abbrev pub toy_hasher : Hasher Json
toy_hasher = record { dumps = json_text; sha256_hex = λ t. hex_onto 64 (checksum 7 t) [] }

hex_digit-is_hex : (d : ℕ) → d < 16 → is_hex (hex_digit d) ≡ true
unfolding hex_digit
hex_digit-is_hex d h = ground arith

all_hex-hex_onto : (k n : ℕ) (acc : Text) → all_hex acc ≡ true → all_hex (hex_onto k n acc) ≡ true
unfolding hex_onto all_hex
all_hex-hex_onto zero n acc h = h
all_hex-hex_onto (suc k) n acc h =
    all_hex-hex_onto k (n / 16) (hex_digit (n % 16) ∷ acc)
      (ground (arith, hex_digit-is_hex (n % 16) (omega arith), h))

hex_onto-is_hex64 : (n : ℕ) → is_hex64 (hex_onto 64 n []) ≡ true
unfolding is_hex64 all_hex
hex_onto-is_hex64 n = ground (arith, length-hex_onto 64 n [], all_hex-hex_onto 64 n [] refl)

pub toy_hasher-Digests : Digests Json
toy_hasher-Digests = record { hex64 = λ t. hex_onto-is_hex64 _ }
