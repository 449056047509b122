-- ===== src/Security/Rails.antt =====
-- app/security/policy_rails.py: the evaluation of structural rails on the segments of an action. A
-- rail's compiled patterns are tests (`search` is not None); `redact` is that of `safe_analyze`.
use Prim.Native.Char.{code, Char}
use manus_claw.Prelude.{
  ℕ, ◌+◌, Bool, true, false, ◌&&◌, ◌||◌, not, String, Option, none, some, List, [], ◌∷◌, ltb, ◌==◌,
  str_eq, append_text, take_chars, codes, length, snoc, if◌then◌else◌, string_eq, insert,
}
use manus_claw.Security.Assessment.{
  SecurityRisk, unknown, level, Value, text, number, items, fields, RiskAssessment, plain, updated,
  fields_of,
}
use manus_claw.Security.Ensemble.{is_space, is_blank, values}

-- `re.split(r";|\n|\r", action)`
push : Char → List String → List String
push c [] = String.◌∷◌ c "" ∷ []
push c (s ∷ ss) = String.◌∷◌ c s ∷ ss

unfoldable pub split : String → List String
unfolding push
split String.[] = "" ∷ []
split (String.◌∷◌ c s) =
    let rest = split s in
    if code c == b';' || code c == 10 || code c == 13 then "" ∷ rest else push c rest

strip_left : String → String
unfolding is_space
strip_left String.[] = ""
strip_left (String.◌∷◌ c s) =
    let rest = strip_left s in if is_space (code c) then rest else String.◌∷◌ c s

strip_right : String → String
unfolding is_space
strip_right String.[] = ""
strip_right (String.◌∷◌ c s) =
    let rest = strip_right s in
    if is_space (code c) && str_eq rest "" then "" else String.◌∷◌ c rest

-- `s.strip()`
unfoldable pub strip : String → String
unfolding strip_left strip_right
strip s = strip_right (strip_left s)

stripped : List String → List String
unfolding strip
stripped [] = []
stripped (s ∷ ss) = let rest = stripped ss in if str_eq (strip s) "" then rest else strip s ∷ rest

unfoldable pub split_segments : String → List String
unfolding split stripped
split_segments action = stripped (split action)

pub record Rail : Type 0 where
  pub detector_id : String
  pub risk : SecurityRisk
  pub reason : String
  pub fetch : String → Bool
  pub exec : Option (String → Bool)
  pub combined : Bool

matches_exec : Option (String → Bool) → String → Bool
matches_exec none segment = false
matches_exec (some exec) segment = exec segment

-- Whether `_evaluate_rail` returns a match.
unfoldable pub evaluate_rail : Rail → String → Bool
unfolding matches_exec
evaluate_rail rail segment =
    if not (rail.fetch segment)
    then false
    else if not rail.combined
    then true
    else matches_exec rail.exec segment

-- The inner `for`: the first segment that the rail matches, with its index.
unfoldable pub first_match : Rail → ℕ → List String → Option (ℕ × String)
unfolding evaluate_rail
first_match rail index [] = none
first_match rail index (segment ∷ segments) =
    let later = first_match rail (index + 1) segments in
    if evaluate_rail rail segment then some (index, segment) else later

escaped : String → String
escaped String.[] = ""
escaped (String.◌∷◌ c s) =
    let rest = escaped s in
    if code c == 10
    then append_text "\\n" rest
    else if code c == 13
    then rest
    else String.◌∷◌ c rest

-- What the loop over the rails has found: the worst assessment, and the rails that matched.
pub record Findings : Type 0 where
  pub best : Option RiskAssessment
  pub triggered_ids : List Value
  pub triggered_details : List Value

abbrev pub nothing_found : Findings
nothing_found = record { best = none; triggered_ids = []; triggered_details = [] }

-- `if best is None or rail.risk > best.risk`
unfoldable pub worse : Option RiskAssessment → RiskAssessment → RiskAssessment
worse none a = a
worse (some best) a = if ltb (level best.risk) (level a.risk) then a else best

-- The end of `analyze`, by `best`.
unfoldable pub report : ℕ → Option RiskAssessment → Findings → RiskAssessment
unfolding updated values insert
report scanned none found = record {
  risk = unknown;
  detector_id = "policy_rails:clear";
  reason = "No structural policy violations detected";
  extras = ("segments_scanned", number scanned) ∷ [];
}
report scanned (some best) found = record {
  risk = best.risk;
  detector_id = best.detector_id;
  reason = best.reason;
  extras = updated best.extras (
      ("triggered_rails", items (values found.triggered_ids))
      ∷ ("triggered_details", items (values found.triggered_details))
      ∷ ("segments_scanned", number scanned)
      ∷ []);
}

module _ (redact : String → String) where
  -- `_safe_preview` with `max_len` 80
  unfoldable pub safe_preview : String → String
  unfolding escaped
  safe_preview segment =
      let preview = escaped segment in
      redact (
        if ltb 80 (length (codes preview))
        then append_text (take_chars 80 preview) "..."
        else preview)

  -- The assessment of a rail that matched a segment.
  unfoldable pub assessment_of : Rail → ℕ × String → RiskAssessment
  unfolding safe_preview
  assessment_of rail (index, segment) = record {
    risk = rail.risk;
    detector_id = rail.detector_id;
    reason = rail.reason;
    extras =
        ("segment_index", number index) ∷ ("segment_preview", text (safe_preview segment)) ∷ [];
  }

  detail_of : Rail → ℕ × String → Value
  unfolding safe_preview fields_of
  detail_of rail (index, segment) = fields (
      fields_of (
        ("rail", text rail.detector_id)
        ∷ ("segment_index", number index)
        ∷ ("segment_preview", text (safe_preview segment))
        ∷ []))

  -- One round of the loop, by what its inner `for` found.
  unfoldable pub record_match : Rail → Option (ℕ × String) → Findings → Findings
  unfolding assessment_of worse detail_of
  record_match rail none found = found
  record_match rail (some hit) found = record {
    best = some (worse found.best (assessment_of rail hit));
    triggered_ids = snoc found.triggered_ids (text rail.detector_id);
    triggered_details = snoc found.triggered_details (detail_of rail hit);
  }

  unfoldable pub scan_rails : List Rail → List String → Findings → Findings
  unfolding record_match first_match
  scan_rails [] segments found = found
  scan_rails (rail ∷ rails) segments found =
      scan_rails rails segments (record_match rail (first_match rail 0 segments) found)

  unfoldable pub analyze_segments : List Rail → List String → RiskAssessment
  unfolding plain scan_rails report
  analyze_segments rails [] = plain unknown "policy_rails:empty" "No non-empty segments found"
  analyze_segments rails (segment ∷ segments) =
      let found = scan_rails rails (segment ∷ segments) nothing_found in
      report (length (segment ∷ segments)) found.best found

  -- `PolicyRailSecurityAnalyzer.analyze` with its list of rails.
  unfoldable pub analyze_rails : List Rail → String → RiskAssessment
  unfolding plain is_blank split_segments analyze_segments
  analyze_rails rails action =
      if is_blank action
      then plain unknown "policy_rails:empty" "Empty action — nothing to scan"
      else analyze_segments rails (split_segments action)
