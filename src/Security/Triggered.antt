-- ===== src/Security/Triggered.antt =====
-- Which rail decides the assessment of an action (app/security/policy_rails.py).
use manus_claw.Prelude.{
  ℕ, Option, String, List, ◌≡◌, ◌∷◌, some, ◌≤◌, ◌⊎◌, true, none, [], Bool-cases, arith, ◌+◌, inl,
  inr, ltb, refl, false, ◌∙◌, ap, sym, if◌then◌else◌, length,
}
use manus_claw.Security.Assessment.{SecurityRisk, unknown, level, RiskAssessment}
use manus_claw.Security.Ensemble.{is_blank}
use manus_claw.Security.Rails.{
  Rail, evaluate_rail, first_match, split_segments, Findings, nothing_found, worse, record_match,
  scan_rails, report, analyze_rails, analyze_segments, assessment_of,
}

-- The rail matches some segment of the list.
abbrev pub Fires : Rail → List String → Type 0
Fires rail [] = ⊥
Fires rail (s ∷ segments) = (evaluate_rail rail s ≡ true) ⊎ Fires rail segments

first_match-none :
    (rail : Rail) (index : ℕ) (segments : List String)
    → first_match rail index segments ≡ none
    → ¬ Fires rail segments
unfolding first_match
first_match-none rail index [] e fires = fires
first_match-none rail index (s ∷ segments) e fires =
    let earlier = first_match-none rail (index + 1) segments in
    elim (Bool-cases (evaluate_rail rail s)) [
      | inl hit ↦
          let e' : ◌≡◌ {A = Option (ℕ × String)} (some (index, s)) none =
            ap (λ b. if b then some (index, s) else first_match rail (index + 1) segments) (sym hit)
            ∙ e in
          cc
      | inr miss ↦
          earlier
            (ap (λ b. if b then some (index, s) else first_match rail (index + 1) segments)
                (sym miss)
              ∙ e)
            (elim fires [ inl hit ↦ absurd cc | inr more ↦ more ])
    ]

first_match-some :
    (rail : Rail) (index : ℕ) (segments : List String) (hit : ℕ × String)
    → first_match rail index segments ≡ some hit
    → Fires rail segments
unfolding first_match
first_match-some rail index [] hit e = cc
first_match-some rail index (s ∷ segments) hit e = elim (Bool-cases (evaluate_rail rail s)) [
  | inl yes_hit ↦ inl yes_hit
  | inr miss ↦ inr (
      first_match-some rail (index + 1) segments hit (
        ap (λ b. if b then some (index, s) else first_match rail (index + 1) segments) (sym miss)
        ∙ e))
]

abbrev best_risk : Option RiskAssessment → SecurityRisk
best_risk none = unknown
best_risk (some a) = a.risk

worse_facts :
    (best : Option RiskAssessment) (a : RiskAssessment)
    → (level (best_risk best) ≤ level (worse best a).risk)
      × (level a.risk ≤ level (worse best a).risk)
      × (((worse best a).risk ≡ best_risk best) ⊎ ((worse best a).risk ≡ a.risk))
unfolding worse
worse_facts none a = (omega arith, omega arith, inr refl)
worse_facts (some best) a = elim (Bool-cases (ltb (level best.risk) (level a.risk))) [
  | inl up ↦ rw up (ground (arith, up), omega arith, inr refl)
  | inr stay ↦ rw stay (omega arith, ground (arith, stay), inl refl)
]

module _ (segments : List String) where
  -- No rail of the list that matches a segment has a risk above this one.
  abbrev pub BoundsFiring : SecurityRisk → List Rail → Type 0
  BoundsFiring r [] = Unit
  BoundsFiring r (rail ∷ rails) =
      (Fires rail segments → level rail.risk ≤ level r) × BoundsFiring r rails

  -- Some rail of the list matches a segment and has this risk.
  abbrev pub SomeFiring : SecurityRisk → List Rail → Type 0
  SomeFiring r [] = ⊥
  SomeFiring r (rail ∷ rails) = (Fires rail segments × (rail.risk ≡ r)) ⊎ SomeFiring r rails

module _ (redact : String → String) (segments : List String) where
  -- What one round does to the worst risk so far.
  abbrev RoundFacts : Rail → Findings → Findings → Type 0
  RoundFacts rail found found' =
      (level (best_risk found.best) ≤ level (best_risk found'.best))
      × (Fires rail segments → level rail.risk ≤ level (best_risk found'.best))
      × ((best_risk found'.best ≡ best_risk found.best)
          ⊎ (Fires rail segments × (rail.risk ≡ best_risk found'.best)))

  round_facts :
      (rail : Rail) (found : Findings) (o : Option (ℕ × String))
      → first_match rail 0 segments ≡ o
      → RoundFacts rail found (record_match redact rail o found)
  unfolding record_match assessment_of
  round_facts rail found none silent =
      (omega arith, (λ fires. absurd (first_match-none rail 0 segments silent fires)), inl refl)
  round_facts rail found (some hit) e =
      let (higher, own, origin) = worse_facts found.best (assessment_of redact rail hit) in
      (
        higher,
        (λ fires. own),
        elim origin [
          | inl same ↦ inl same
          | inr new ↦ inr (first_match-some rail 0 segments hit e, sym new)
        ],
      )

  scan_facts :
      (rails : List Rail) (found : Findings)
      → let r = best_risk (scan_rails redact rails segments found).best in
        (level (best_risk found.best) ≤ level r)
        × BoundsFiring segments r rails
        × ((r ≡ best_risk found.best) ⊎ SomeFiring segments r rails)
  unfolding scan_rails
  scan_facts [] found = (omega arith, tt, inl refl)
  scan_facts (rail ∷ rails) found =
      let found' = record_match redact rail (first_match rail 0 segments) found in
      let (up, bounds, from) = scan_facts rails found' in
      let (higher, own, origin) = round_facts rail found (first_match rail 0 segments) refl in
      (
        omega (arith, up, higher),
        ((λ fires. omega (arith, up, own fires)), bounds),
        elim from [
          | inl e ↦ elim origin [
            | inl same ↦ inl (e ∙ same)
            | inr (fires, new) ↦ inr (inl (fires, new ∙ sym e))
          ]
          | inr more ↦ inr (inr more)
        ],
      )

module _ (redact : String → String) where
  report-risk :
      (scanned : ℕ) (o : Option RiskAssessment) (found : Findings)
      → (report scanned o found).risk ≡ best_risk o
  unfolding report
  report-risk scanned none found = refl
  report-risk scanned (some best) found = refl

  nothing_fires : (r : SecurityRisk) (rails : List Rail) → BoundsFiring [] r rails
  nothing_fires r [] = tt
  nothing_fires r (rail ∷ rails) = ((λ fires. absurd fires), nothing_fires r rails)

  segments_facts :
      (rails : List Rail) (segments : List String)
      → let r = (analyze_segments redact rails segments).risk in
        BoundsFiring segments r rails × ((r ≡ unknown) ⊎ SomeFiring segments r rails)
  unfolding analyze_segments
  segments_facts rails [] = (nothing_fires unknown rails, inl refl)
  segments_facts rails (s ∷ segments) =
      let found = scan_rails redact rails (s ∷ segments) nothing_found in
      let (up, bounds, from) = scan_facts redact (s ∷ segments) rails nothing_found in
      rw (report-risk (length (s ∷ segments)) found.best found) (bounds, from)

  -- The risk of an action that is not blank bounds that of every rail that matches one of its
  -- segments, and it is the risk of such a rail, or UNKNOWN.
  pub analyze_rails-BoundsFiring :
      (rails : List Rail) (action : String)
      → is_blank action ≡ false
      → let r = (analyze_rails redact rails action).risk in
        let segments = split_segments action in
        BoundsFiring segments r rails × ((r ≡ unknown) ⊎ SomeFiring segments r rails)
  unfolding analyze_rails
  analyze_rails-BoundsFiring rails action shown =
      rw shown (segments_facts rails (split_segments action))
