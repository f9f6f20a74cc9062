-- ===== src/Infrastructure/Adapters/Chaos.antt =====
-- The value of the logistic map that the mock keeps, and what it answers for it.
use cloud_commander.Prelude.{◌+◌, ◌≡◌, true, arith}
use cloud_commander.Float.{Float, IsOrdered}
use cloud_commander.Float.Clamp.{Within, clamp-Within}
use cloud_commander.Infrastructure.Adapters.{
  MockAwsAdapter, chaos_low, chaos_high, next_chaos_value, apply_chaos_profile,
}

module _ {F : Type 0} ⦃float : Float F⦄ (laws : IsOrdered F) where
  next_chaos_value-Within :
      (a : MockAwsAdapter F)
      → float.le chaos_low chaos_high ≡ true
      → Within laws chaos_low chaos_high (next_chaos_value a).1.chaos_x
  unfolding next_chaos_value
  next_chaos_value-Within a h =
      let numbers = laws.le_number chaos_low chaos_high h in
      clamp-Within laws chaos_low chaos_high _ h numbers.0 numbers.1

  -- The value that the chaos profile keeps lies between its two bounds, whatever the parameters
  -- are, and its answer is about four nodes, if floats are ordered as doubles are and the lower
  -- bound is at most the upper.
  apply_chaos_profile-Within :
      (a : MockAwsAdapter F)
      → float.le chaos_low chaos_high ≡ true
      → let (r, a') = apply_chaos_profile a in
        Within laws chaos_low chaos_high a'.chaos_x × (r.nodes_success + r.nodes_failed ≡ 4)
  unfolding apply_chaos_profile
  apply_chaos_profile-Within a h = (next_chaos_value-Within a h, ground arith)
