-- ===== src/Verification/Combiner.antt =====
-- scripts/runtime/verification/integrity_combiner.py: the worse of the two lanes' verdicts.
pub mod Worse
use Prim.Native.String.{◌++◌}
use gddp_runtime.Prelude.{
  ℕ, String, Bool, true, false, ◌||◌, not, Option, none, some, if◌then◌else◌, ltb, ◌==◌,
}
use gddp_runtime.Verification.Schemas.{Verdict, IntegrityOutput, IntegrityVerdict}

unfoldable pub severity : Verdict → ℕ
severity Verdict.pass = 0
severity Verdict.needs_more_evidence = 1
severity Verdict.needs_human_review = 2
severity Verdict.out_of_scope_change_detected = 3
severity Verdict.fail = 4
severity Verdict.blocked = 5

unfoldable pub integrity_floor : IntegrityVerdict → Verdict
integrity_floor IntegrityVerdict.pass = Verdict.pass
integrity_floor IntegrityVerdict.insufficient = Verdict.needs_more_evidence
integrity_floor IntegrityVerdict.unknown = Verdict.needs_human_review
integrity_floor IntegrityVerdict.drift = Verdict.needs_human_review
integrity_floor IntegrityVerdict.contradicted = Verdict.needs_human_review
integrity_floor IntegrityVerdict.block = Verdict.needs_human_review

-- `max(a, b, key=_SEVERITY.__getitem__)`: the first of the two where they tie.
unfoldable pub worse : Verdict → Verdict → Verdict
unfolding severity
worse a b = if ltb (severity a) (severity b) then b else a

-- The texts of the enumerations, as they stand in messages.
unfoldable pub verdict_value : Verdict → String
verdict_value Verdict.pass = "pass"
verdict_value Verdict.fail = "fail"
verdict_value Verdict.blocked = "blocked"
verdict_value Verdict.needs_human_review = "needs-human-review"
verdict_value Verdict.needs_more_evidence = "needs-more-evidence"
verdict_value Verdict.out_of_scope_change_detected = "out-of-scope-change-detected"

unfoldable pub integrity_value : IntegrityVerdict → String
integrity_value IntegrityVerdict.pass = "pass"
integrity_value IntegrityVerdict.block = "block"
integrity_value IntegrityVerdict.drift = "drift"
integrity_value IntegrityVerdict.insufficient = "insufficient"
integrity_value IntegrityVerdict.contradicted = "contradicted"
integrity_value IntegrityVerdict.unknown = "unknown"

unfoldable pub halt_message : IntegrityVerdict → Verdict → String
unfolding integrity_value verdict_value
halt_message i v =
    "Integrity verdict '"
    ++ (integrity_value i
        ++ ("' halts progression (criteria verdict was '"
            ++ (verdict_value v
                ++ "'). Human review required; no dependent node may dispatch on this node.")))

module _ {F : Type 0} where
  -- The floor of a lane's submission: its flags outweigh its word.
  unfoldable pub lane_floor : IntegrityOutput F → Verdict
  unfolding integrity_floor worse
  lane_floor i =
      if not i.intent_preserved || not i.graph_integrity_preserved
      then worse (integrity_floor i.verdict) Verdict.needs_human_review
      else integrity_floor i.verdict

  unfoldable pub combine : Verdict → Option (IntegrityOutput F) → String → Verdict × String
  unfolding lane_floor worse severity halt_message
  combine criteria_verdict none action = (criteria_verdict, action)
  combine criteria_verdict (some i) action =
      let combined = worse criteria_verdict (lane_floor i) in
      (
        combined,
        if severity combined == severity criteria_verdict
            then action
            else halt_message i.verdict criteria_verdict,
      )
