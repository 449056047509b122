-- ===== src/Security/Tests.antt =====
-- Runs of the security analysis of app/security.
use manus_claw.Prelude.{
  String, ◌≡◌, ◌∷◌, true, ◌≢◌, [], ◌↔◌, refl, false, is_infix, ◌⊎◌, codes, some,
}
use manus_claw.Security.Assessment.{
  medium, high, plain, Analyzer, assessed, raises, analyze_sequence,
}
use manus_claw.Security.Ensemble.{Ensemble, is_blank, analyze, sorted_set}
use manus_claw.Security.Confirmation.{ConfirmRisky, requires_confirmation, confirm_risky}
use manus_claw.Security.Fusion.{analyze-risk-eq-analyze_sequence}
use manus_claw.Security.Rails.{Rail, analyze_rails, split_segments}
use manus_claw.Security.Triggered.{BoundsFiring, SomeFiring, analyze_rails-BoundsFiring}
use manus_claw.Security.Assessment.{unknown}
use manus_claw.Security.Approval.{risky_action-IsStopped, IsStopped, SomeRisky}

abbrev same_text : String → String
same_text s = s

abbrev crashing : Analyzer
crashing = record { name = "crash"; analyze = λ action context. raises "ValueError" "no" }

abbrev wary : Analyzer
wary = record {
  name = "wary";
  analyze = λ action context. assessed (plain high "wary:rm" "deletes files");
}

abbrev ensemble : Ensemble
ensemble = record { name = "ensemble"; analyzers = crashing ∷ wary ∷ [] }

abbrev policy : ConfirmRisky
policy = record { threshold = medium; block_high = true }

shown : is_blank "rm" ≡ false
unfolding is_blank
shown = refl

some_analyzers : ensemble.analyzers ≢ []
some_analyzers e = cc

is_high : (analyze same_text ensemble "rm" []).risk ≡ high
unfolding analyze
is_high = refl

sorted_once : sorted_set ("b" ∷ "a" ∷ "b" ∷ []) ≡ "a" ∷ "b" ∷ []
unfolding sorted_set
sorted_once = refl

analyze-risk-eq-analyze_sequence_example :
    (analyze same_text ensemble "rm" []).risk
    ≡ (analyze_sequence same_text ensemble.analyzers "rm" []).risk
analyze-risk-eq-analyze_sequence_example =
    analyze-risk-eq-analyze_sequence same_text "rm" [] ensemble shown

risky_action-IsStopped_example :
    IsStopped policy
      (requires_confirmation (confirm_risky policy) (analyze same_text ensemble "rm" []))
    ↔ SomeRisky same_text "rm" [] medium ensemble.analyzers
risky_action-IsStopped_example =
    risky_action-IsStopped same_text "rm" [] ensemble policy shown some_analyzers

-- The rail `fetch-to-exec`, with plain texts for its patterns.
abbrev fetch_to_exec : Rail
fetch_to_exec = record {
  detector_id = "rail:fetch-to-exec";
  risk = high;
  reason = "Download piped to interpreter";
  fetch = λ s. is_infix (codes "curl ") (codes s);
  exec = some (λ s. is_infix (codes "sh") (codes s));
  combined = true;
}

piped_is_high : (analyze_rails same_text (fetch_to_exec ∷ []) "curl a | sh").risk ≡ high
unfolding analyze_rails is_infix
piped_is_high = refl

apart_is_unknown :
    (analyze_rails same_text (fetch_to_exec ∷ []) " curl a ; echo bash").risk ≡ unknown
unfolding analyze_rails is_infix
apart_is_unknown = refl

two_segments : split_segments " curl a ; echo\nx;" ≡ "curl a" ∷ "echo" ∷ "x" ∷ []
unfolding split_segments
two_segments = refl

piped_shown : is_blank "curl a | sh" ≡ false
unfolding is_blank
piped_shown = refl

analyze_rails-BoundsFiring_example :
    let r = (analyze_rails same_text (fetch_to_exec ∷ []) "curl a | sh").risk in
    let segments = split_segments "curl a | sh" in
    BoundsFiring segments r (fetch_to_exec ∷ [])
    × ((r ≡ unknown) ⊎ SomeFiring segments r (fetch_to_exec ∷ []))
analyze_rails-BoundsFiring_example =
    analyze_rails-BoundsFiring same_text (fetch_to_exec ∷ []) "curl a | sh" piped_shown
