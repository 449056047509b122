-- ===== src/Conversation/Tests.antt =====
-- Runs of the state of app/conversation/state.py.
use manus_claw.Prelude.{none, some, List, [], ◌∷◌, ◌≡◌, refl, codes, is_infix}
use manus_claw.Conversation.State.{
  valid_transitions, has_status, running, finished, new_state, set_status, redact, try_set_status,
  set_pause_reason,
}
use manus_claw.Conversation.Transitions.{
  Call, sets_status, tries_status, sets_pause_reason, after_all,
}

abbrev some_calls : List Call
some_calls =
    sets_status 1 running
    ∷ sets_pause_reason (some "tea")
    ∷ tries_status 2 finished
    ∷ sets_status 3 running
    ∷ []

-- The last call raises the ValueError.
stays_finished : (after_all some_calls (new_state "c1")).status ≡ finished
unfolding set_status try_set_status set_pause_reason new_state
stays_finished = refl

refused : (set_status 1 finished (new_state "c1")).0 ≡ none
unfolding new_state set_status valid_transitions has_status
refused = refl

-- A secret that starts with another one is not found once the other is replaced: its end stays.
leaks_end : redact (("a", "abc") ∷ ("b", "abcdef") ∷ []) (codes "abcdef") ≡ codes "<REDACTED:a>def"
unfolding redact is_infix
leaks_end = refl
