-- ===== src/Verification/Combiner/Worse.antt =====
-- The combined verdict as the worse of the two lanes'.
use gddp_runtime.Prelude.{◌≤◌, String, Option, none, some, ◌≡◌, ◌⊎◌, inl, refl, arith}
use gddp_runtime.Verification.Schemas.{Verdict, IntegrityOutput}
use gddp_runtime.Verification.Combiner.{severity, lane_floor, combine}

-- The severities tell the verdicts apart, so the code's `is` is a comparison of them.
pub severity-injective : (a b : Verdict) → severity a ≡ severity b → a ≡ b
unfolding severity
severity-injective a b h = ground arith

module _ {F : Type 0} where
  -- The floor that the integrity lane puts under the verdict, for a lane that ran or not.
  abbrev pub floor : Option (IntegrityOutput F) → Verdict
  floor none = Verdict.pass
  floor (some i) = lane_floor i

  -- Neither lane upgrades the other: the combined verdict is at least as severe as the criteria
  -- verdict and as the floor of the integrity lane, and is one of the two.
  pub combine-worse :
      (v : Verdict) (i : Option (IntegrityOutput F)) (action : String)
      → (severity v ≤ severity (combine v i action).0)
        × (severity (floor i) ≤ severity (combine v i action).0)
        × (((combine v i action).0 ≡ v) ⊎ ((combine v i action).0 ≡ floor i))
  unfolding combine
  combine-worse v none action = (omega arith, ground arith, inl refl)
  combine-worse v (some i) action = (ground arith, ground arith, ground arith)
