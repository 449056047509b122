-- ===== src/StuckDetector/Verdicts.antt =====
-- What `StuckDetector.analyze` returns, and when it does not return.
use manus_claw.Prelude.{
  ℕ, zero, suc, ◌*◌, ◌≤◌, ◌<◌, true, false, String, ◌≡◌, refl, sym, ◌∙◌, none, some, List, [], ◌∷◌,
  ◌++◌, arith, eq_refl, str_eq, colon, if◌then◌else◌, length, last, replicate, length-append,
  length-replicate, last-append, last-replicate,
}
use manus_claw.StuckDetector.Events.{
  Event, is_action, is_observation, action_fingerprint, observation_fingerprint,
}
use manus_claw.StuckDetector.Pairs.{has_unanswered_action, pairs_of, observation_pair, error_pair}
use manus_claw.StuckDetector.Checks.{
  Detector, StuckReport, not_stuck, stuck, repeating_action_observation, repeat_count, all_equal,
  common, judge_pairs, judge_errors, check_agent_monologue, check_alternating_action_observation,
  check_context_window_error_loop, window_of, check_repeating_action_observation,
  check_repeating_action_error, analyze,
}
use manus_claw.StuckDetector.Termination.{
  spec_acts, pair_loop-eq-pairs_of, pair_loop_diverges, action_not_observation,
}

-- The first report that is stuck.
unfoldable pub first_stuck : List StuckReport → StuckReport
first_stuck [] = not_stuck
first_stuck (r ∷ rs) = if r.is_stuck then r else first_stuck rs

window_of_self :
    (d : Detector) (events : List Event)
    → length events ≤ d.window_size
    → window_of d events ≡ events
unfolding window_of
window_of_self d events fits = ground arith

window_of-append :
    (d : Detector) (old recent : List Event)
    → 0 < d.window_size
    → length recent ≡ d.window_size
    → window_of d (old ++ recent) ≡ recent
unfolding window_of
window_of-append d [] recent pos full = ground arith
window_of-append d (e ∷ old) recent pos full =
    ground (arith, last-append d.window_size (e ∷ old) recent pos full, length-append old recent)

module _ (digest : String → String) (d : Detector) where
  -- The five verdicts on a window, in the order of their priority.
  abbrev pub verdicts : List Event → List StuckReport
  verdicts window =
      judge_pairs d.repeat_threshold (pairs_of (observation_pair digest) none window)
      ∷ judge_errors d.repeat_threshold (pairs_of (error_pair digest) none window)
      ∷ check_agent_monologue d window
      ∷ check_alternating_action_observation digest d window
      ∷ check_context_window_error_loop d window
      ∷ []

  -- On a non-empty history in whose window every action is answered by an observation before the
  -- next action, `analyze` returns: as many rounds as the window has events are enough, and the
  -- report is the first stuck one among the five verdicts.
  pub analyze-eq-first_stuck :
      (fuel : ℕ) (e : Event) (es : List Event)
      → length (window_of d (e ∷ es)) ≤ fuel
      → has_unanswered_action false (window_of d (e ∷ es)) ≡ false
      → analyze digest d fuel (e ∷ es) ≡ some (first_stuck (verdicts (window_of d (e ∷ es))))
  unfolding analyze check_repeating_action_observation check_repeating_action_error first_stuck
  analyze-eq-first_stuck fuel e es room calm =
      let window = window_of d (e ∷ es) in
      rw
        (
          pair_loop-eq-pairs_of (observation_pair digest) fuel window [] room calm,
          pair_loop-eq-pairs_of (error_pair digest) fuel window [] room calm,
        )
        (ground arith)

  -- If the window has an action that is followed by another action with no observation between
  -- them, `analyze` does not return, however many rounds it is given.
  pub analyze_diverges :
      (fuel : ℕ) (events : List Event)
      → has_unanswered_action false (window_of d events) ≡ true
      → analyze digest d fuel events ≡ none
  unfolding analyze check_repeating_action_observation has_unanswered_action window_of
  analyze_diverges fuel [] hangs = ground arith
  analyze_diverges fuel (e ∷ es) hangs =
      rw (pair_loop_diverges (observation_pair digest) fuel (window_of d (e ∷ es)) [] hangs) refl

  -- Only the last `window_size` events count, when there are more.
  pub analyze-append :
      (fuel : ℕ) (old recent : List Event)
      → 0 < d.window_size
      → length recent ≡ d.window_size
      → analyze digest d fuel (old ++ recent) ≡ analyze digest d fuel recent
  unfolding analyze
  analyze-append fuel old [] pos full = absurd (omega arith)
  analyze-append fuel [] (r ∷ rs) pos full = refl
  analyze-append fuel (e ∷ old) (r ∷ rs) pos full =
      rw (window_of-append d (e ∷ old) (r ∷ rs) pos full, window_of_self d (r ∷ rs) (omega arith))

-- `n` rounds of the same action, each with the same observation.
abbrev pub rounds : ℕ → Event → Event → List Event
rounds zero a o = []
rounds (suc n) a o = a ∷ o ∷ rounds n a o

length-rounds : (n : ℕ) (a o : Event) → length (rounds n a o) ≡ n * 2
length-rounds zero a o = omega arith
length-rounds (suc n) a o = omega (arith, length-rounds n a o)

module _ (a o : Event) (acts : is_action a ≡ true) (seen : is_observation o ≡ true) where
  rounds_calm : (n : ℕ) → has_unanswered_action false (rounds n a o) ≡ false
  unfolding has_unanswered_action
  rounds_calm zero = refl
  rounds_calm (suc n) = ground (arith, rounds_calm n, action_not_observation a acts)

  pairs_of-rounds :
      (digest : String → String) (n : ℕ)
      → pairs_of (observation_pair digest) none (rounds n a o)
        ≡ replicate n (colon (action_fingerprint digest a) (observation_fingerprint digest o))
  unfolding pairs_of observation_pair
  pairs_of-rounds digest zero = refl
  pairs_of-rounds digest (suc n) =
      sym (spec_acts (observation_pair digest) a (o ∷ rounds n a o) acts)
      ∙ ground (arith, pairs_of-rounds digest n)

all_equal-replicate : (n : ℕ) (s : String) → all_equal s (replicate n s) ≡ true
unfolding all_equal
all_equal-replicate zero s = refl
all_equal-replicate (suc n) s = rw eq_refl (all_equal-replicate n s)

common-last : (n k : ℕ) (s : String) → 0 < n → n ≤ k → common (last n (replicate k s)) ≡ some s
unfolding common
common-last zero k s pos fits = absurd (omega arith)
common-last (suc n) k s pos fits =
    rw (last-replicate (suc n) k s pos fits) (rw (all_equal-replicate n s))

judge_pairs-replicate :
    (n k : ℕ) (pair : String)
    → str_eq pair ":" ≡ false
    → 0 < n
    → n ≤ k
    → judge_pairs n (replicate k pair) ≡ stuck repeating_action_observation 85 (repeat_count n pair)
unfolding judge_pairs
judge_pairs-replicate n k pair named pos fits =
    ground (arith, common-last n k pair pos fits, length-replicate k pair)

first_stuck-cons :
    (r : StuckReport) (rs : List StuckReport) → r.is_stuck ≡ true → first_stuck (r ∷ rs) ≡ r
unfolding first_stuck
first_stuck-cons r rs found = rw found

-- An agent that has done nothing but the same action with the same observation, `n` times over in a
-- window that holds them all, is reported as repeating once `n` reaches the (positive) threshold.
-- That a fingerprint is no empty text stands as the hypothesis on the pair.
pub analyze-rounds :
    (digest : String → String) (d : Detector) (fuel n : ℕ) (a o : Event)
    → is_action a ≡ true
    → is_observation o ≡ true
    → str_eq (colon (action_fingerprint digest a) (observation_fingerprint digest o)) ":" ≡ false
    → 0 < d.repeat_threshold
    → d.repeat_threshold ≤ n
    → n * 2 ≤ d.window_size
    → n * 2 ≤ fuel
    → analyze digest d fuel (rounds n a o)
      ≡ some (
          stuck repeating_action_observation 85 (
            repeat_count d.repeat_threshold
              (colon (action_fingerprint digest a) (observation_fingerprint digest o))))
analyze-rounds digest d fuel zero a o acts seen named pos often fits room = absurd (omega arith)
analyze-rounds digest d fuel (suc m) a o acts seen named pos often fits room =
    let n = suc m in
    let events = rounds n a o in
    let whole = window_of_self d events (omega (arith, length-rounds n a o)) in
    let judged = judge_pairs-replicate d.repeat_threshold n _ named pos often in
    analyze-eq-first_stuck digest d fuel a (o ∷ rounds m a o)
      (rw whole (omega (arith, length-rounds n a o))) (rw whole (rounds_calm a o acts seen n))
    ∙ rw (whole, pairs_of-rounds a o acts seen digest n, judged) (rw first_stuck-cons)
