-- ===== src/Security/Fusion.antt =====
-- The risk that fusion gives (app/security/base.py, app/security/ensemble.py).
use manus_claw.Prelude.{
  String, ◌≡◌, if◌then◌else◌, Dict, max, ltb, arith, false, List, refl, snoc, ◌∙◌, ◌⊎◌, ◌≤◌, ◌∷◌,
  inl, ap, sym, [], Bool-cases, inr, ◌≢◌, true,
}
use manus_claw.Security.Assessment.{
  SecurityRisk, unknown, low, medium, high, level, Value, RiskAssessment, merge, Analyzer, plain,
  safe_analyze, merge_all, analyze_sequence,
}
use manus_claw.Security.Ensemble.{
  Ensemble, is_blank, max_risk, fuse, run, sub_assessments, analyze, add_analyzer,
}

pub level_injective : (r s : SecurityRisk) → level r ≡ level s → r ≡ s
level_injective unknown unknown e = refl
level_injective low low e = refl
level_injective medium medium e = refl
level_injective high high e = refl
level_injective unknown low e = absurd (omega arith)
level_injective unknown medium e = absurd (omega arith)
level_injective unknown high e = absurd (omega arith)
level_injective low unknown e = absurd (omega arith)
level_injective low medium e = absurd (omega arith)
level_injective low high e = absurd (omega arith)
level_injective medium unknown e = absurd (omega arith)
level_injective medium low e = absurd (omega arith)
level_injective medium high e = absurd (omega arith)
level_injective high unknown e = absurd (omega arith)
level_injective high low e = absurd (omega arith)
level_injective high medium e = absurd (omega arith)

higher : SecurityRisk → SecurityRisk → SecurityRisk
higher r s = if ltb (level r) (level s) then s else r

level-higher : (r s : SecurityRisk) → level (higher r s) ≡ max (level r) (level s)
unfolding higher
level-higher r s = ground arith

higher-up : (r s : SecurityRisk) → ltb (level r) (level s) ≡ true → higher r s ≡ s
unfolding higher
higher-up r s up = rw up refl

higher-stay : (r s : SecurityRisk) → ltb (level r) (level s) ≡ false → higher r s ≡ r
unfolding higher
higher-stay r s stay = rw stay refl

higher-unknown : (r : SecurityRisk) → higher unknown r ≡ r
unfolding higher
higher-unknown unknown = refl
higher-unknown low = refl
higher-unknown medium = refl
higher-unknown high = refl

merge-risk : (a b : RiskAssessment) → (merge a b).risk ≡ higher a.risk b.risk
unfolding merge higher
merge-risk a b = ground (arith, level_injective a.risk b.risk)

module _ (redact : String → String) (action : String) (context : Dict String Value) where
  unfoldable pub risk_of : Analyzer → SecurityRisk
  unfolding safe_analyze
  risk_of a = (safe_analyze redact a action context).risk

  abbrev pub NoneAbove : SecurityRisk → List Analyzer → Type 0
  NoneAbove r [] = Unit
  NoneAbove r (a ∷ analyzers) = (level (risk_of a) ≤ level r) × NoneAbove r analyzers

  abbrev pub SomeAt : SecurityRisk → List Analyzer → Type 0
  SomeAt r [] = ⊥
  SomeAt r (a ∷ analyzers) = (risk_of a ≡ r) ⊎ SomeAt r analyzers

  -- The risk that fusion starts from `r`.
  fused : SecurityRisk → List Analyzer → SecurityRisk
  fused r [] = r
  fused r (a ∷ analyzers) = fused (higher r (risk_of a)) analyzers

  max_risk-fused :
      (r : SecurityRisk) (analyzers : List Analyzer)
      → max_risk r (sub_assessments redact analyzers action context) ≡ fused r analyzers
  unfolding fused max_risk sub_assessments higher risk_of
  max_risk-fused r [] = refl
  max_risk-fused r (a ∷ analyzers) = max_risk-fused (higher r (risk_of a)) analyzers

  fused-level :
      (r : SecurityRisk) (analyzers : List Analyzer)
      → (level r ≤ level (fused r analyzers)) × NoneAbove (fused r analyzers) analyzers
  unfolding fused
  fused-level r [] = (omega arith, tt)
  fused-level r (a ∷ analyzers) =
      let (up, above) = fused-level (higher r (risk_of a)) analyzers in
      let l = level-higher r (risk_of a) in (omega (arith, up, l), (omega (arith, up, l), above))

  fused-SomeAt :
      (r : SecurityRisk) (analyzers : List Analyzer)
      → (fused r analyzers ≡ r) ⊎ SomeAt (fused r analyzers) analyzers
  unfolding fused
  fused-SomeAt r [] = inl refl
  fused-SomeAt r (a ∷ analyzers) = elim (fused-SomeAt (higher r (risk_of a)) analyzers) [
    | inl e ↦ elim (Bool-cases (ltb (level r) (level (risk_of a)))) [
      | inl up ↦ inr (inl (sym (e ∙ higher-up r (risk_of a) up)))
      | inr stay ↦ inl (e ∙ higher-stay r (risk_of a) stay)
    ]
    | inr more ↦ inr (inr more)
  ]

  fused_highest :
      (analyzers : List Analyzer)
      → analyzers ≢ []
      → SomeAt (fused unknown analyzers) analyzers × NoneAbove (fused unknown analyzers) analyzers
  fused_highest [] some = absurd (some refl)
  fused_highest (a ∷ analyzers) some =
      let (_, above) = fused-level unknown (a ∷ analyzers) in
      elim (fused-SomeAt unknown (a ∷ analyzers)) [
        | inl e ↦ (inl (level_injective _ _ (omega (arith, above.0, ap level e))), above)
        | inr more ↦ (more, above)
      ]

  fused-snoc :
      (r : SecurityRisk) (analyzers : List Analyzer) (a : Analyzer)
      → fused r (snoc analyzers a) ≡ higher (fused r analyzers) (risk_of a)
  unfolding fused
  fused-snoc r [] a = refl
  fused-snoc r (b ∷ analyzers) a = fused-snoc (higher r (risk_of b)) analyzers a

  merge_all-risk :
      (current : RiskAssessment) (analyzers : List Analyzer)
      → (merge_all redact current analyzers action context).risk ≡ fused current.risk analyzers
  unfolding merge_all fused risk_of
  merge_all-risk current [] = refl
  merge_all-risk current (a ∷ analyzers) =
      let b = safe_analyze redact a action context in
      merge_all-risk (merge current b) analyzers
      ∙ ap (λ r. fused r analyzers) (merge-risk current b)

  run-risk :
      (name : String) (analyzers : List Analyzer)
      → is_blank action ≡ false
      → (run redact name analyzers action context).risk ≡ fused unknown analyzers
  unfolding run fuse fused risk_of sub_assessments plain
  run-risk name [] shown = refl
  run-risk name (a ∷ analyzers) shown = rw shown (
      max_risk-fused (risk_of a) analyzers
      ∙ ap (λ r. fused r analyzers) (sym (higher-unknown (risk_of a))))

  -- On an action that is not blank, the ensemble gives the same risk as `analyze_sequence` over its
  -- analyzers.
  pub analyze-risk-eq-analyze_sequence :
      (e : Ensemble)
      → is_blank action ≡ false
      → (analyze redact e action context).risk
        ≡ (analyze_sequence redact e.analyzers action context).risk
  unfolding analyze analyze_sequence plain
  analyze-risk-eq-analyze_sequence e shown =
      run-risk e.name e.analyzers shown
      ∙ sym (merge_all-risk (plain unknown "base:unknown" "") e.analyzers)

  -- On an action that is not blank, the risk of an ensemble with analyzers is that of one of them, and
  -- no analyzer gives a higher one. (An analyzer that fails counts as `safe_analyze` makes it count.)
  pub analyze-risk_highest :
      (e : Ensemble)
      → is_blank action ≡ false
      → e.analyzers ≢ []
      → let r = (analyze redact e action context).risk in
        SomeAt r e.analyzers × NoneAbove r e.analyzers
  unfolding analyze
  analyze-risk_highest e shown some =
      rw (run-risk e.name e.analyzers shown) (fused_highest e.analyzers some)

  -- On an action that is not blank, adding an analyzer gives the higher of the ensemble's risk and the
  -- risk that the analyzer gives.
  pub analyze-add_analyzer :
      (e : Ensemble) (a : Analyzer)
      → is_blank action ≡ false
      → level (analyze redact (add_analyzer a e) action context).risk
        ≡ max
            (level (analyze redact e action context).risk)
            (level (safe_analyze redact a action context).risk)
  unfolding analyze add_analyzer risk_of
  analyze-add_analyzer e a shown =
      let before = run-risk e.name e.analyzers shown in
      let after = run-risk e.name (snoc e.analyzers a) shown ∙ fused-snoc unknown e.analyzers a in
      ap level after
      ∙ level-higher (fused unknown e.analyzers) (risk_of a)
      ∙ ap (λ r. max (level r) (level (risk_of a))) (sym before)
