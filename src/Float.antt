-- ===== src/Float.antt =====
-- Python's `float` as an interface: the operations that the program uses, and the order laws that
-- hold of IEEE doubles which are not NaN.
pub mod Clamp
use cloud_commander.Prelude.{ℕ, ◌*◌, ◌^◌, ◌≤◌, ◌<◌, ◌≡◌, Bool, true, false, if◌then◌else◌}
use cloud_commander.Text.{Text}

pub record Float {ℓ} (F : Type ℓ) : Type ℓ where
  -- the literal `m / 10 ^ k`, as `lit 35 2` for 0.35
  pub lit : ℕ → ℕ → F
  pub add : F → F → F
  pub sub : F → F → F
  pub mul : F → F → F
  pub div : F → F → F
  pub lt : F → F → Bool
  pub le : F → F → Bool
  pub eq : F → F → Bool
  pub finite : F → Bool  -- math.isfinite
  pub abs : F → F
  pub minus_inf : F  -- float("-inf")
  pub fixed : ℕ → F → Text  -- f"{x:.4f}" is `fixed 4 x`

-- Laws of doubles. A comparison with NaN is false, so the laws ask for
-- nothing about it: `le x x` says that `x` is a number; a literal
-- is rounded to the nearest double, which keeps the order.
pub record IsOrdered {ℓ} (F : Type ℓ) ⦃float : Float F⦄ : Type ℓ where
  pub le_trans : (x y z : F) → float.le x y ≡ true → float.le y z ≡ true → float.le x z ≡ true
  pub lt_irrefl : (x : F) → float.lt x x ≡ false
  pub lt_trans : (x y z : F) → float.lt x y ≡ true → float.lt y z ≡ true → float.lt x z ≡ true
  pub le-lt_trans : (x y z : F) → float.le x y ≡ true → float.lt y z ≡ true → float.lt x z ≡ true
  pub lt_le : (x y : F) → float.lt x y ≡ true → float.le x y ≡ true
  pub eq_le : (x y : F) → float.eq x y ≡ true → (float.le x y ≡ true) × (float.le y x ≡ true)
  pub le_number : (x y : F) → float.le x y ≡ true → (float.le x x ≡ true) × (float.le y y ≡ true)
  pub lt_total :
      (x y : F)
      → float.le x x ≡ true
      → float.le y y ≡ true
      → float.lt x y ≡ false
      → float.le y x ≡ true
  pub lit_le :
      (m k n j : ℕ) → m * 10 ^ j ≤ n * 10 ^ k → float.le (float.lit m k) (float.lit n j) ≡ true
  pub lit_finite : (m k : ℕ) → m ≤ 2 ^ 53 → float.finite (float.lit m k) ≡ true

-- A number of events over a window of some seconds, as a rate
pub record IsRate {ℓ} (F : Type ℓ) ⦃float : Float F⦄ : Type ℓ where
  pub zero_rate :
      (w : ℕ) → 0 < w → float.eq (float.div (float.lit 0 0) (float.lit w 0)) (float.lit 0 0) ≡ true
  pub zero_rate_not_positive :
      (w : ℕ) → 0 < w → float.lt (float.lit 0 0) (float.div (float.lit 0 0) (float.lit w 0)) ≡ false
  pub positive_rate :
      (n w : ℕ)
      → 0 < n
      → n ≤ 2 ^ 53
      → 0 < w
      → w ≤ 1000
      → float.lt (float.lit 0 0) (float.div (float.lit n 0) (float.lit w 0)) ≡ true

-- Python's `max` and `min` keep their first argument unless the second is beyond it.
module _ {ℓ} {F : Type ℓ} ⦃float : Float F⦄ where
  abbrev pub max_of : F → F → F
  max_of x y = if float.lt x y then y else x

  abbrev pub min_of : F → F → F
  min_of x y = if float.lt y x then y else x
