-- ===== src/StuckDetector/Checks.antt =====
-- The five checks of app/conversation/stuck_detector.py, `analyze`, and the settings. A report keeps
-- the pattern, the confidence in per cent and the metadata; its two human-readable texts are left
-- out. Thresholds and window sizes are natural numbers.
use manus_claw.Prelude.{
  ℕ, ◌+◌, ◌*◌, max, Bool, true, false, not, ◌&&◌, String, Option, none, some, List, [], ◌∷◌, ltb,
  leb, str_eq, if◌then◌else◌, length, last,
}
use manus_claw.StuckDetector.Events.{
  Event, is_action, is_user_message, is_convertible, is_context_window_error, action_fingerprint,
}
use manus_claw.StuckDetector.Pairs.{pair_loop, observation_pair, error_pair}

pub data StuckPattern : Type 0 where
  repeating_action_observation repeating_action_error agent_monologue : StuckPattern
  alternating_action_observation context_window_error_loop : StuckPattern

pub data Metadata : Type 0 where
  no_metadata : Metadata
  repeat_count : ℕ → String → Metadata
  max_consecutive : ℕ → Metadata
  cycle : String → String → ℕ → Metadata
  error_count : ℕ → Metadata

pub record StuckReport : Type 0 where
  pub is_stuck : Bool
  pub pattern : Option StuckPattern
  pub confidence : ℕ
  pub metadata : Metadata

pub record Detector : Type 0 where
  pub window_size : ℕ
  pub repeat_threshold : ℕ
  pub monologue_threshold : ℕ
  pub context_error_threshold : ℕ

-- `StuckReport(is_stuck=False)`
abbrev pub not_stuck : StuckReport
not_stuck = record { is_stuck = false; pattern = none; confidence = 0; metadata = no_metadata }

abbrev pub stuck : StuckPattern → ℕ → Metadata → StuckReport
stuck p c m = record { is_stuck = true; pattern = some p; confidence = c; metadata = m }

-- Every text is `s`.
unfoldable pub all_equal : String → List String → Bool
all_equal s [] = true
all_equal s (t ∷ ts) = str_eq t s && all_equal s ts

-- `last_n[0]`, where `len(set(last_n)) == 1`.
unfoldable pub common : List String → Option String
unfolding all_equal
common [] = none
common (s ∷ ts) = if all_equal s ts then some s else none

-- The verdict of pattern 1 on the pairs.
report_repeated_pair : ℕ → Option String → StuckReport
report_repeated_pair n none = not_stuck
report_repeated_pair n (some pair) =
    if str_eq pair ":"
    then not_stuck
    else stuck repeating_action_observation 85 (repeat_count n pair)

unfoldable pub judge_pairs : ℕ → List String → StuckReport
unfolding common report_repeated_pair
judge_pairs n pairs =
    if ltb (length pairs) n then not_stuck else report_repeated_pair n (common (last n pairs))

-- The verdict of pattern 2 on the pairs.
report_repeated_error : ℕ → Option String → StuckReport
report_repeated_error n none = not_stuck
report_repeated_error n (some pair) = stuck repeating_action_error 90 (repeat_count n pair)

unfoldable pub judge_errors : ℕ → List String → StuckReport
unfolding common report_repeated_error
judge_errors n pairs =
    if ltb (length pairs) n then not_stuck else report_repeated_error n (common (last n pairs))

-- One event of pattern 3: `(consecutive_non_user, max_consecutive)`.
unfoldable pub count_message : Event → ℕ × ℕ → ℕ × ℕ
count_message event (run, longest) =
    if is_user_message event
    then (0, longest)
    else if is_convertible event
    then (run + 1, max longest (run + 1))
    else (run, longest)

unfoldable pub longest_run : List Event → ℕ × ℕ → ℕ
unfolding count_message
longest_run [] (run, longest) = longest
longest_run (e ∷ es) counts = longest_run es (count_message e counts)

unfoldable pub check_agent_monologue : Detector → List Event → StuckReport
check_agent_monologue d events =
    let longest = longest_run events (0, 0) in
    if leb d.monologue_threshold longest
    then stuck agent_monologue 60 (max_consecutive longest)
    else not_stuck

-- The texts are a, b, a, b, …
unfoldable pub is_two_cycle : String → String → List String → Bool
is_two_cycle a b [] = true
is_two_cycle a b (fp ∷ fps) = str_eq fp a && is_two_cycle b a fps

-- `last` has its first two elements `a` and `b` once it holds four.
report_cycle : List String → StuckReport
unfolding is_two_cycle
report_cycle (a ∷ b ∷ fps) =
    if leb 4 (length (a ∷ b ∷ fps)) && not (str_eq a b) && is_two_cycle a b (a ∷ b ∷ fps)
    then stuck alternating_action_observation 80 (cycle a b (length (a ∷ b ∷ fps)))
    else not_stuck
report_cycle _ = not_stuck

unfoldable pub judge_actions : ℕ → List String → StuckReport
unfolding report_cycle
judge_actions n fps =
    if ltb (length fps) (n * 2) then not_stuck else report_cycle (last (n * 2) fps)

unfoldable pub count_context_errors : List Event → ℕ
count_context_errors [] = 0
count_context_errors (e ∷ es) =
    (if is_context_window_error e then 1 else 0) + count_context_errors es

unfoldable pub check_context_window_error_loop : Detector → List Event → StuckReport
check_context_window_error_loop d events =
    let context_errors = count_context_errors events in
    if leb d.context_error_threshold context_errors
    then stuck context_window_error_loop 95 (error_count context_errors)
    else not_stuck

-- `events[-window_size:] if len(events) > window_size else list(events)`
unfoldable pub window_of : Detector → List Event → List Event
window_of d events = if ltb d.window_size (length events) then last d.window_size events else events

-- `if report.is_stuck: return report`, and otherwise what comes next. A check that has not come
-- to its end leaves nothing to return.
unfoldable pub or_next : Option StuckReport → Option StuckReport → Option StuckReport
or_next none next = none
or_next (some report) next = if report.is_stuck then some report else next

set_window_size : ℕ → Detector → Detector
set_window_size value d = record d { window_size = max 4 value }

set_repeat_threshold : ℕ → Detector → Detector
set_repeat_threshold value d = record d { repeat_threshold = max 2 value }

set_monologue_threshold : ℕ → Detector → Detector
set_monologue_threshold value d = record d { monologue_threshold = max 3 value }

module _ (digest : String → String) where
  judged : (List String → StuckReport) → Option (List String) → Option StuckReport
  judged judge none = none
  judged judge (some pairs) = some (judge pairs)

  unfoldable pub check_repeating_action_observation : Detector → ℕ → List Event → Option StuckReport
  unfolding judged judge_pairs
  check_repeating_action_observation d fuel events =
      judged (judge_pairs d.repeat_threshold) (pair_loop (observation_pair digest) fuel events [])

  unfoldable pub check_repeating_action_error : Detector → ℕ → List Event → Option StuckReport
  unfolding judged judge_errors
  check_repeating_action_error d fuel events =
      judged (judge_errors d.repeat_threshold) (pair_loop (error_pair digest) fuel events [])

  unfoldable pub action_fps : List Event → List String
  action_fps [] = []
  action_fps (e ∷ es) =
      let fps = action_fps es in if is_action e then action_fingerprint digest e ∷ fps else fps

  unfoldable pub check_alternating_action_observation : Detector → List Event → StuckReport
  check_alternating_action_observation d events =
      judge_actions d.repeat_threshold (action_fps events)

  unfoldable pub analyze : Detector → ℕ → List Event → Option StuckReport
  unfolding or_next window_of
  analyze d fuel [] = some not_stuck
  analyze d fuel events =
      let window = window_of d events in
      or_next (check_repeating_action_observation d fuel window) (
        or_next (check_repeating_action_error d fuel window) (
          or_next (some (check_agent_monologue d window)) (
            or_next (some (check_alternating_action_observation d window))
              (or_next (some (check_context_window_error_loop d window)) (some not_stuck)))))
