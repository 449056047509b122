-- ===== src/StuckDetector/Termination.antt =====
-- When the pairing loops of app/conversation/stuck_detector.py end, and what they then return.
use manus_claw.Prelude.{
  ℕ, zero, suc, ◌≤◌, ◌<◌, true, false, String, ◌≡◌, refl, sym, ◌∙◌, ap, none, some, List, [], ◌∷◌,
  ◌++◌, append-nil, append_assoc, inl, inr, arith, eq_iff, length, Bool-cases, if◌then◌else◌,
}
use manus_claw.StuckDetector.Events.{Event, is_action, is_observation}
use manus_claw.StuckDetector.Pairs.{
  Scan, found, blocked, exhausted, next_observation, Emit, after_scan, pair_step, pair_loop,
  has_unanswered_action, pairs_of,
}

pub action_not_observation : (e : Event) → is_action e ≡ true → is_observation e ≡ false
unfolding is_action is_observation
action_not_observation e h =
    ground
      (arith, eq_iff e.kind "action", eq_iff e.kind "observation", eq_iff "action" "observation")

module _ (emit : Emit) where
  unanswered_action :
      (e : Event) (es : List Event)
      → is_action e ≡ true
      → has_unanswered_action false (e ∷ es) ≡ has_unanswered_action true es
  unfolding has_unanswered_action
  unanswered_action e es acts = ground (arith, action_not_observation e acts)

  unanswered_idle :
      (e : Event) (es : List Event)
      → is_action e ≡ false
      → has_unanswered_action false (e ∷ es) ≡ has_unanswered_action false es
  unfolding has_unanswered_action
  unanswered_idle e es idle = ground arith

  -- What the inner `for` has seen of `es`, by how it ended.
  abbrev ScanFacts : Event → List Event → Scan → Type 0
  ScanFacts a es (found o rest) =
      (length rest < length es)
      × (has_unanswered_action true es ≡ has_unanswered_action false rest)
      × (pairs_of emit (some a) es ≡ emit.paired a o ++ pairs_of emit none rest)
  ScanFacts a es blocked = has_unanswered_action true es ≡ true
  ScanFacts a es exhausted =
      (has_unanswered_action true es ≡ false)
      × (has_unanswered_action false es ≡ false)
      × (pairs_of emit (some a) es ≡ emit.alone a)
      × (pairs_of emit none es ≡ [])

  skip_facts :
      (a e : Event) (es : List Event) (s : Scan)
      → is_observation e ≡ false
      → is_action e ≡ false
      → ScanFacts a es s
      → ScanFacts a (e ∷ es) s
  unfolding has_unanswered_action pairs_of
  skip_facts a e es (found o rest) other idle h = ground arith
  skip_facts a e es blocked other idle h = ground arith
  skip_facts a e es exhausted other idle h = ground arith

  seen_facts :
      (a e : Event) (es : List Event) → is_observation e ≡ true → ScanFacts a (e ∷ es) (found e es)
  unfolding has_unanswered_action pairs_of
  seen_facts a e es seen = ground arith

  blocked_facts :
      (a e : Event) (es : List Event)
      → is_observation e ≡ false
      → is_action e ≡ true
      → ScanFacts a (e ∷ es) blocked
  unfolding has_unanswered_action
  blocked_facts a e es other acts = ground arith

  scan_facts : (a : Event) (es : List Event) → ScanFacts a es (next_observation es)
  unfolding next_observation has_unanswered_action pairs_of
  scan_facts a [] = (refl, refl, refl, refl)
  scan_facts a (e ∷ es) = elim (Bool-cases (is_observation e)) [
    | inl seen ↦ rw seen (seen_facts a e es seen)
    | inr other ↦ elim (Bool-cases (is_action e)) [
      | inl acts ↦ rw (other, acts) (blocked_facts a e es other acts)
      | inr idle ↦ rw (other, idle) (skip_facts a e es _ other idle (scan_facts a es))
    ]
  ]

  -- One round, on a window where no action is left unanswered: what remains is shorter, and it holds
  -- the pairs that are missing.
  step_facts :
      (a : Event) (es : List Event) (pairs : List String) (s : Scan)
      → has_unanswered_action true es ≡ false
      → ScanFacts a es s
      → let (rest, pairs') = after_scan emit a es pairs s in
        (length rest ≤ length es)
        × (has_unanswered_action false rest ≡ false)
        × (pairs' ++ pairs_of emit none rest ≡ pairs ++ pairs_of emit (some a) es)
  unfolding after_scan
  step_facts a es pairs (found o rest) calm h =
      (omega (arith, h.0), ground (arith, h.1), rw (append_assoc, h.2) refl)
  step_facts a es pairs blocked calm h = absurd (cc h)
  step_facts a es pairs exhausted calm h = (omega arith, h.1, rw (h.2, h.3, append-nil) refl)

  loop_acts :
      (fuel : ℕ) (e : Event) (es : List Event) (pairs : List String)
      → is_action e ≡ true
      → let (rest, pairs') = after_scan emit e es pairs (next_observation es) in
        pair_loop emit (suc fuel) (e ∷ es) pairs ≡ pair_loop emit fuel rest pairs'
  unfolding pair_loop
  loop_acts fuel e es pairs acts =
      ap (λ s. pair_loop emit fuel s.0 s.1) {x = pair_step emit e es pairs} (rw acts)

  loop_idle :
      (fuel : ℕ) (e : Event) (es : List Event) (pairs : List String)
      → is_action e ≡ false
      → pair_loop emit (suc fuel) (e ∷ es) pairs ≡ pair_loop emit fuel es pairs
  unfolding pair_loop
  loop_idle fuel e es pairs idle =
      ap (λ s. pair_loop emit fuel s.0 s.1) {x = pair_step emit e es pairs} (rw idle)

  pub spec_acts :
      (e : Event) (es : List Event)
      → is_action e ≡ true
      → pairs_of emit (some e) es ≡ pairs_of emit none (e ∷ es)
  unfolding pairs_of
  spec_acts e es acts =
      ap (λ o. pairs_of emit o es) {x = some e} {y = if is_action e then some e else none} (rw acts)

  spec_idle :
      (e : Event) (es : List Event)
      → is_action e ≡ false
      → pairs_of emit none es ≡ pairs_of emit none (e ∷ es)
  unfolding pairs_of
  spec_idle e es idle =
      ap (λ o. pairs_of emit o es) {x = none} {y = if is_action e then some e else none} (rw idle)

  -- A window in which every action is answered before the next one: the loop ends within as many
  -- rounds as there are events, with the pairs of the reference.
  pub pair_loop-eq-pairs_of :
      (fuel : ℕ) (events : List Event) (pairs : List String)
      → length events ≤ fuel
      → has_unanswered_action false events ≡ false
      → pair_loop emit fuel events pairs ≡ some (pairs ++ pairs_of emit none events)
  unfolding pair_loop pairs_of
  pair_loop-eq-pairs_of fuel [] pairs room calm = ap some (sym (append-nil pairs))
  pair_loop-eq-pairs_of zero (e ∷ es) pairs room calm = absurd (omega arith)
  pair_loop-eq-pairs_of (suc fuel) (e ∷ es) pairs room calm = elim (Bool-cases (is_action e)) [
    | inl acts ↦
        let s = next_observation es in
        let (fewer, calm', same) =
          step_facts e es pairs s (sym (unanswered_action e es acts) ∙ calm) (scan_facts e es) in
        let (rest, pairs') = after_scan emit e es pairs s in
        loop_acts fuel e es pairs acts
        ∙ pair_loop-eq-pairs_of fuel rest pairs' (omega arith) calm'
        ∙ ap some (same ∙ ap (λ l. pairs ++ l) (spec_acts e es acts))
    | inr idle ↦
        loop_idle fuel e es pairs idle
        ∙ pair_loop-eq-pairs_of fuel es pairs (omega arith) (sym (unanswered_idle e es idle) ∙ calm)
        ∙ ap (λ l. some (pairs ++ l)) (spec_idle e es idle)
  ]

  hanging_step :
      (a : Event) (es : List Event) (pairs : List String) (s : Scan)
      → is_action a ≡ true
      → has_unanswered_action true es ≡ true
      → ScanFacts a es s
      → has_unanswered_action false (after_scan emit a es pairs s).0 ≡ true
  unfolding after_scan
  hanging_step a es pairs (found o rest) acts hangs h = sym h.1 ∙ hangs
  hanging_step a es pairs blocked acts hangs h = unanswered_action a es acts ∙ hangs
  hanging_step a es pairs exhausted acts hangs h = cc h.0

  -- Two actions with no observation between them: whatever the fuel, the loop does not end.
  pub pair_loop_diverges :
      (fuel : ℕ) (events : List Event) (pairs : List String)
      → has_unanswered_action false events ≡ true
      → pair_loop emit fuel events pairs ≡ none
  unfolding pair_loop has_unanswered_action
  pair_loop_diverges fuel [] pairs hangs = cc
  pair_loop_diverges zero (e ∷ es) pairs hangs = refl
  pair_loop_diverges (suc fuel) (e ∷ es) pairs hangs = elim (Bool-cases (is_action e)) [
    | inl acts ↦
        let s = next_observation es in
        let (rest, pairs') = after_scan emit e es pairs s in
        loop_acts fuel e es pairs acts
        ∙ pair_loop_diverges fuel rest pairs' (
            hanging_step e es pairs s acts (sym (unanswered_action e es acts) ∙ hangs)
              (scan_facts e es))
    | inr idle ↦
        loop_idle fuel e es pairs idle
        ∙ pair_loop_diverges fuel es pairs (sym (unanswered_idle e es idle) ∙ hangs)
  ]
