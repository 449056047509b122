-- ===== src/StuckDetector/Tests.antt =====
-- Runs of the stuck detector (app/conversation/stuck_detector.py) on small histories; `digest` is
-- the identity here.
use manus_claw.Prelude.{String, List, ◌≡◌, [], arith, ◌∷◌, none, some, true, refl}
use manus_claw.StuckDetector.Events.{
  Event, is_action, is_observation, action_fingerprint, observation_fingerprint,
}
use manus_claw.StuckDetector.Pairs.{pair_loop, pairs_of, observation_pair, has_unanswered_action}
use manus_claw.StuckDetector.Checks.{
  Detector, analyze, stuck, repeating_action_observation, repeat_count, window_of,
}
use manus_claw.StuckDetector.Termination.{pair_loop-eq-pairs_of}
use manus_claw.StuckDetector.Verdicts.{
  analyze-eq-first_stuck, analyze_diverges, analyze-rounds, rounds, first_stuck, verdicts,
}

abbrev same_text : String → String
same_text s = s

abbrev event : String → String → Event
event kind text = record {
  kind = kind;
  tool_call = none;
  as_text = text;
  tool_name = "bash";
  content = text;
  error_type = none;
  class_name = "Event";
  error = "";
  source = "agent";
  role = "assistant";
  success = true;
}

abbrev act : Event
act = event "action" "ls"

abbrev seen : Event
seen = event "observation" "a.txt"

abbrev detector : Detector
detector = record {
  window_size = 6;
  repeat_threshold = 3;
  monologue_threshold = 5;
  context_error_threshold = 3;
}

abbrev calm_events : List Event
calm_events = act ∷ seen ∷ act ∷ []

abbrev hanging_events : List Event
hanging_events = seen ∷ act ∷ act ∷ []

pair_loop-eq-pairs_of_example :
    pair_loop (observation_pair same_text) 3 calm_events []
    ≡ some (pairs_of (observation_pair same_text) none calm_events)
pair_loop-eq-pairs_of_example =
    pair_loop-eq-pairs_of (observation_pair same_text) 3 calm_events [] (omega arith)
      (unfold has_unanswered_action is_action is_observation in refl)

analyze-eq-first_stuck_example :
    analyze same_text detector 6 calm_events
    ≡ some (first_stuck (verdicts same_text detector (window_of detector calm_events)))
analyze-eq-first_stuck_example =
    analyze-eq-first_stuck same_text detector 6 act (seen ∷ act ∷ [])
      (unfold window_of in omega arith)
      (unfold has_unanswered_action is_action is_observation window_of in refl)

analyze_diverges_example : analyze same_text detector 1000 hanging_events ≡ none
analyze_diverges_example =
    analyze_diverges same_text detector 1000 hanging_events
      (unfold has_unanswered_action is_action is_observation window_of in refl)

analyze-rounds_example :
    analyze same_text detector 6 (rounds 3 act seen)
    ≡ some (stuck repeating_action_observation 85 (repeat_count 3 "ls:bash:a.txt"))
unfolding action_fingerprint observation_fingerprint
analyze-rounds_example =
    analyze-rounds same_text detector 6 3 act seen (unfold is_action in refl)
      (unfold is_observation in refl) (refl) (omega arith) (omega arith) (omega arith) (omega arith)
