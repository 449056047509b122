-- ===== src/Security/Approval.antt =====
-- From the analyzers' risks to the decision of `ConfirmRisky` (app/security/ensemble.py,
-- app/security/confirmation_policy.py).
use manus_claw.Prelude.{
  ◌≡◌, ◌≤◌, String, Dict, true, arith, List, ◌⊎◌, false, ◌∷◌, ◌≢◌, inl, [], ◌↔◌, inr, ap,
  Bool-cases, ltb, ◌==◌, refl,
}
use manus_claw.Security.Assessment.{
  SecurityRisk, high, level, Value, RiskAssessment, is_risky, Analyzer, safe_analyze, unknown, low,
  medium,
}
use manus_claw.Security.Ensemble.{Ensemble, is_blank, analyze}
use manus_claw.Security.Fusion.{risk_of, SomeAt, NoneAbove, analyze-risk_highest, level_injective}
use manus_claw.Security.Confirmation.{
  ConfirmRisky, ConfirmationDecision, blocked_reason, confirm_risk, requires_confirmation,
  confirm_risky,
}

-- The decision asks a human, or denies the action.
abbrev pub IsStopped : ConfirmRisky → ConfirmationDecision → Type 0
IsStopped policy d =
    (d.needs_confirmation ≡ true)
    ⊎ ((policy.block_high ≡ true) × (d.assessment.risk ≡ high) × (d.reason ≡ blocked_reason))

level-le-high : (r : SecurityRisk) → level r ≤ level high
level-le-high unknown = omega arith
level-le-high low = omega arith
level-le-high medium = omega arith
level-le-high high = omega arith

confirm_risk-IsStopped :
    (policy : ConfirmRisky) (a : RiskAssessment)
    → level policy.threshold ≤ level a.risk
    → IsStopped policy (confirm_risk policy a)
unfolding confirm_risk
confirm_risk-IsStopped policy a h =
    let meets : ltb (level a.risk) (level policy.threshold) ≡ false = ground (arith, h) in
    elim (Bool-cases (level a.risk == level high)) [
      | inl top ↦ elim (Bool-cases policy.block_high) [
        | inl block ↦
            rw meets
              (rw top (rw block (inr (refl, level_injective a.risk high (ground arith), refl))))
        | inr ask ↦ rw meets (rw top (rw ask (inl refl)))
      ]
      | inr lower ↦ rw meets (rw lower (inl refl))
    ]

confirm_risk_approves :
    (policy : ConfirmRisky) (a : RiskAssessment)
    → ltb (level a.risk) (level policy.threshold) ≡ true
    → ((confirm_risk policy a).needs_confirmation ≡ false)
      × ((confirm_risk policy a).assessment ≡ a)
unfolding confirm_risk
confirm_risk_approves policy a below = rw below (refl, refl)

IsStopped-risky :
    (policy : ConfirmRisky) (a : RiskAssessment)
    → IsStopped policy (confirm_risk policy a)
    → level policy.threshold ≤ level a.risk
IsStopped-risky policy a stopped = elim (Bool-cases (ltb (level a.risk) (level policy.threshold))) [
  | inl below ↦
      let (quiet, same) = confirm_risk_approves policy a below in
      elim stopped [
        | inl asks ↦ cc
        | inr (block, top, r) ↦
            let e = ap (λ b. level b.risk) same in
            omega (arith, e, ap level top, level-le-high policy.threshold)
      ]
  | inr meets ↦ ground (arith, meets)
]

module _ (redact : String → String) (action : String) (context : Dict String Value) where
  -- `is_risky` holds of the assessment of some analyzer of the list.
  abbrev pub SomeRisky : SecurityRisk → List Analyzer → Type 0
  SomeRisky threshold [] = ⊥
  SomeRisky threshold (a ∷ analyzers) =
      (is_risky threshold (safe_analyze redact a action context) ≡ true)
      ⊎ SomeRisky threshold analyzers

  SomeRisky-le :
      (threshold r : SecurityRisk) (analyzers : List Analyzer)
      → NoneAbove redact action context r analyzers
      → SomeRisky threshold analyzers
      → level threshold ≤ level r
  unfolding is_risky risk_of
  SomeRisky-le threshold r [] above some = absurd some
  SomeRisky-le threshold r (a ∷ analyzers) (h, above) some = elim some [
    | inl risky ↦ ground (arith, h)
    | inr more ↦ SomeRisky-le threshold r analyzers above more
  ]

  SomeAt-SomeRisky :
      (threshold r : SecurityRisk) (analyzers : List Analyzer)
      → level threshold ≤ level r
      → SomeAt redact action context r analyzers
      → SomeRisky threshold analyzers
  unfolding is_risky risk_of
  SomeAt-SomeRisky threshold r [] h at = at
  SomeAt-SomeRisky threshold r (a ∷ analyzers) h at = elim at [
    | inl e ↦ inl (ground (arith, h, ap level e))
    | inr more ↦ inr (SomeAt-SomeRisky threshold r analyzers h more)
  ]

  -- On an action that is not blank, `ConfirmRisky` asks a human about the assessment of an ensemble
  -- with analyzers, or denies the action, exactly if some analyzer's assessment is risky at the
  -- policy's threshold.
  pub risky_action-IsStopped :
      (e : Ensemble) (policy : ConfirmRisky)
      → is_blank action ≡ false
      → e.analyzers ≢ []
      → IsStopped policy
          (requires_confirmation (confirm_risky policy) (analyze redact e action context))
        ↔ SomeRisky policy.threshold e.analyzers
  unfolding requires_confirmation
  risky_action-IsStopped e policy shown some =
      let a = analyze redact e action context in
      let (at, above) = analyze-risk_highest redact action context e shown some in
      (
        (λ stopped.
            SomeAt-SomeRisky policy.threshold a.risk e.analyzers (IsStopped-risky policy a stopped)
              at),
        (λ risky.
            confirm_risk-IsStopped policy a
              (SomeRisky-le policy.threshold a.risk e.analyzers above risky)),
      )
