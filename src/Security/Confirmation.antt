-- ===== src/Security/Confirmation.antt =====
-- app/security/confirmation_policy.py: `NeverConfirm` and `ConfirmRisky`.
use manus_claw.Prelude.{Bool, true, false, ◌&&◌, String, ltb, ◌==◌, append_text, if◌then◌else◌}
use manus_claw.Security.Assessment.{SecurityRisk, high, level, risk_name, RiskAssessment}

pub record ConfirmationDecision : Type 0 where
  pub needs_confirmation : Bool
  pub reason : String
  pub assessment : RiskAssessment
  pub policy_name : String

pub record ConfirmRisky : Type 0 where
  pub threshold : SecurityRisk
  pub block_high : Bool

pub data ConfirmationPolicy : Type 0 where
  never_confirm : ConfirmationPolicy
  confirm_risky : ConfirmRisky → ConfirmationPolicy

abbrev pub blocked_reason : String
blocked_reason = "ConfirmRisky policy: HIGH risk blocked outright (block_high=True). Action denied."

-- `ConfirmRisky.requires_confirmation`
unfoldable pub confirm_risk : ConfirmRisky → RiskAssessment → ConfirmationDecision
unfolding risk_name
confirm_risk policy assessment =
    let risk = assessment.risk in
    if ltb (level risk) (level policy.threshold)
    then record {
      needs_confirmation = false;
      reason = append_text "ConfirmRisky policy: risk " (
          append_text (risk_name risk) (
            append_text " below threshold "
              (append_text (risk_name policy.threshold) "; auto-approved")));
      assessment = assessment;
      policy_name = "confirm_risky";
    }
    else if level risk == level high && policy.block_high
    then record {
      needs_confirmation = false;
      reason = blocked_reason;
      assessment = assessment;
      policy_name = "confirm_risky";
    }
    else record {
      needs_confirmation = true;
      reason = append_text "ConfirmRisky policy: risk " (
          append_text (risk_name risk) (
            append_text " meets or exceeds threshold "
              (append_text (risk_name policy.threshold) "; human confirmation required")));
      assessment = assessment;
      policy_name = "confirm_risky";
    }

unfoldable pub requires_confirmation : ConfirmationPolicy → RiskAssessment → ConfirmationDecision
unfolding confirm_risk
requires_confirmation never_confirm assessment = record {
  needs_confirmation = false;
  reason = "NeverConfirm policy: auto-approve all actions";
  assessment = assessment;
  policy_name = "never_confirm";
}
requires_confirmation (confirm_risky policy) assessment = confirm_risk policy assessment

unfoldable pub set_threshold : SecurityRisk → ConfirmRisky → ConfirmRisky
set_threshold threshold policy = record policy { threshold = threshold }
