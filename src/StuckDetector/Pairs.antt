-- ===== src/StuckDetector/Pairs.antt =====
-- The two loops of app/conversation/stuck_detector.py that pair each action with the observation
-- behind it. The index `i` is the suffix `events[i:]`, and fuel counts the rounds of the `while`;
-- `none` means that the fuel ran out.
use manus_claw.Prelude.{
  ℕ, zero, suc, Bool, true, false, String, Option, none, some, List, [], ◌∷◌, ◌++◌, str_eq, colon,
  if◌then◌else◌,
}
use manus_claw.StuckDetector.Events.{
  Event, is_action, is_observation, is_failed_observation, action_fingerprint,
  observation_fingerprint,
}

-- How the inner `for` ends: at an observation, with the events behind it, by the `break` at the
-- next action, or with no event left (its `else`).
pub data Scan : Type 0 where
  found : Event → List Event → Scan
  blocked exhausted : Scan

unfoldable pub next_observation : List Event → Scan
next_observation [] = exhausted
next_observation (e ∷ es) =
    let later = next_observation es in
    if is_observation e then found e es else if is_action e then blocked else later

-- What a loop appends for an action with its observation, and for an action alone.
pub record Emit : Type 0 where
  pub paired : Event → Event → List String
  pub alone : Event → List String

-- The branch for an action: `i` stays where it is when the scan was cut short.
unfoldable pub after_scan :
    Emit → Event → List Event → List String → Scan → List Event × List String
after_scan emit a es pairs (found o rest) = (rest, pairs ++ emit.paired a o)
after_scan emit a es pairs blocked = (a ∷ es, pairs ++ emit.alone a)
after_scan emit a es pairs exhausted = (es, pairs ++ emit.alone a)

-- One round of the `while`.
unfoldable pub pair_step : Emit → Event → List Event → List String → List Event × List String
unfolding after_scan next_observation
pair_step emit e es pairs =
    if is_action e then after_scan emit e es pairs (next_observation es) else (es, pairs)

unfoldable pub pair_loop : Emit → ℕ → List Event → List String → Option (List String)
unfolding pair_step
pair_loop emit fuel [] pairs = some pairs
pair_loop emit zero (e ∷ es) pairs = none
pair_loop emit (suc fuel) (e ∷ es) pairs =
    let (rest, pairs') = pair_step emit e es pairs in pair_loop emit fuel rest pairs'

-- An action waits for its observation (`open_action`), and another action comes first.
unfoldable pub has_unanswered_action : Bool → List Event → Bool
has_unanswered_action open_action [] = false
has_unanswered_action open_action (e ∷ es) = elim (is_observation e) [
  | true ↦ has_unanswered_action false es
  | false ↦ elim (is_action e) [
    | true ↦ if open_action then true else has_unanswered_action true es
    | false ↦ has_unanswered_action open_action es
  ]
]

-- The pairs that the events hold, by one structural pass: the reference for `pair_loop`.
unfoldable pub pairs_of : Emit → Option Event → List Event → List String
pairs_of emit none [] = []
pairs_of emit (some a) [] = emit.alone a
pairs_of emit none (e ∷ es) = pairs_of emit (if is_action e then some e else none) es
pairs_of emit (some a) (e ∷ es) = elim (is_observation e) [
  | true ↦ emit.paired a e ++ pairs_of emit none es
  | false ↦ elim (is_action e) [
    | true ↦ emit.alone a ++ pairs_of emit (some e) es
    | false ↦ pairs_of emit (some a) es
  ]
]

module _ (digest : String → String) where
  -- Pattern 1: every action gives `action:observation`, with an empty observation where it has none.
  unfoldable pub observation_pair : Emit
  observation_pair = record {
    paired = λ a o. colon (action_fingerprint digest a) (observation_fingerprint digest o) ∷ [];
    alone = λ a. colon (action_fingerprint digest a) "" ∷ [];
  }

  -- `if obs_fp:`
  nonempty_error : String → String → List String
  nonempty_error action_fp obs_fp =
      if str_eq obs_fp "" then [] else colon action_fp (colon "ERR" obs_fp) ∷ []

  -- Pattern 2: only an action whose observation failed gives a pair.
  unfoldable pub error_pair : Emit
  unfolding nonempty_error
  error_pair = record {
    paired = λ a o.
        if is_failed_observation o
        then nonempty_error (action_fingerprint digest a) (observation_fingerprint digest o)
        else [];
    alone = λ a. [];
  }
