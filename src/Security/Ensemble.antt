-- ===== src/Security/Ensemble.antt =====
-- app/security/ensemble.py: `EnsembleSecurityAnalyzer`. `redact` is that of `safe_analyze`.
use manus_claw.Prelude.{
  text_leb, ℕ, Bool, true, false, ◌||◌, String, List, [], ◌∷◌, map, ltb, leb, str_eq, append_text,
  colon, snoc, length, codes, ◌==◌, if◌then◌else◌, Dict, string_eq, one_of, ◌&&◌,
}
use manus_claw.Security.Assessment.{
  SecurityRisk, unknown, level, risk_name, Value, text, number, items, Values, value, no_values,
  RiskAssessment, plain, updated, to_dict, Analyzer, safe_analyze,
}

pub record Ensemble : Type 0 where
  pub name : String
  pub analyzers : List Analyzer

unfoldable pub new_ensemble : List Analyzer → String → Ensemble
new_ensemble analyzers name = record {
  name = if str_eq name "" then "ensemble" else name;
  analyzers = analyzers;
}

unfoldable pub analyzer_count : Ensemble → ℕ
analyzer_count e = length e.analyzers

-- The code points that `str.strip` removes.
unfoldable pub is_space : ℕ → Bool
is_space c =
    leb 9 c && leb c 13
    || leb 28 c && leb c 32
    || leb 0x2000 c && leb c 0x200a
    || c == 0x85
    || c == 0xa0
    || c == 0x1680
    || c == 0x2028
    || c == 0x2029
    || c == 0x202f
    || c == 0x205f
    || c == 0x3000

all_spaces : List ℕ → Bool
unfolding is_space
all_spaces [] = true
all_spaces (c ∷ cs) = is_space c && all_spaces cs

-- `not action or not action.strip()`
unfoldable pub is_blank : String → Bool
unfolding all_spaces
is_blank action = all_spaces (codes action)

-- `max(a.risk for a in assessments)`, for a list that starts with an assessment of risk `r`.
unfoldable pub max_risk : SecurityRisk → List RiskAssessment → SecurityRisk
max_risk r [] = r
max_risk r (a ∷ assessments) =
    max_risk (if ltb (level r) (level a.risk) then a.risk else r) assessments

unfoldable pub top_assessments : SecurityRisk → List RiskAssessment → List RiskAssessment
top_assessments r [] = []
top_assessments r (a ∷ assessments) =
    let tops = top_assessments r assessments in if level a.risk == level r then a ∷ tops else tops

insert_text : String → List String → List String
insert_text s [] = s ∷ []
insert_text s (t ∷ ts) =
    let rest = insert_text s ts in if text_leb s t then s ∷ t ∷ ts else t ∷ rest

-- `sorted(set(ids))`
unfoldable pub sorted_set : List String → List String
unfolding insert_text
sorted_set [] = []
sorted_set (s ∷ ss) = let rest = sorted_set ss in if one_of s rest then rest else insert_text s rest

-- `separator.join(texts)`
unfoldable pub join : String → List String → String
join separator [] = ""
join separator (s ∷ []) = s
join separator (s ∷ t ∷ ts) = append_text s (append_text separator (join separator (t ∷ ts)))

-- `top_assessments[0].detector_id` for a single one, else the union.
unfoldable pub fused_detector : List RiskAssessment → String
unfolding sorted_set join
fused_detector (a ∷ []) = a.detector_id
fused_detector tops = join "," (sorted_set (map (λ a. a.detector_id) tops))

reasons_of : List RiskAssessment → List String
reasons_of [] = []
reasons_of (a ∷ tops) =
    let reasons = reasons_of tops in if str_eq a.reason "" then reasons else a.reason ∷ reasons

joined : SecurityRisk → List String → String
unfolding join risk_name
joined r [] = append_text "Ensemble risk: " (risk_name r)
joined r (s ∷ ss) = join "; " (s ∷ ss)

unfoldable pub fused_reason : SecurityRisk → List RiskAssessment → String
unfolding reasons_of joined
fused_reason r tops = joined r (reasons_of tops)

unfoldable pub values : List Value → Values
values [] = no_values
values (v ∷ vs) = value v (values vs)

update_all : Dict String Value → List RiskAssessment → Dict String Value
unfolding updated
update_all extras [] = extras
update_all extras (a ∷ tops) = update_all (updated extras a.extras) tops

unfoldable pub fused_extras : String → List RiskAssessment → List RiskAssessment → Dict String Value
unfolding values update_all to_dict
fused_extras name assessments tops =
    update_all
      (("all_detectors", items (values (map (λ a. text a.detector_id) assessments)))
        ∷ ("sub_assessments", items (values (map to_dict assessments)))
        ∷ ("ensemble_name", text name)
        ∷ ("analyzer_count", number (length assessments))
        ∷ [])
      tops

unfoldable pub fuse : String → List RiskAssessment → RiskAssessment
unfolding plain max_risk top_assessments fused_detector fused_reason fused_extras
fuse name [] = plain unknown (colon name "empty_fusion") "No assessments to fuse"
fuse name (a ∷ assessments) =
    let r = max_risk a.risk assessments in
    let tops = top_assessments r (a ∷ assessments) in
    record {
      risk = r;
      detector_id = fused_detector tops;
      reason = fused_reason r tops;
      extras = fused_extras name (a ∷ assessments) tops;
    }

unfoldable pub add_analyzer : Analyzer → Ensemble → Ensemble
add_analyzer analyzer e = record e { analyzers = snoc e.analyzers analyzer }

without : String → List Analyzer → Bool × List Analyzer
without name [] = (false, [])
without name (a ∷ analyzers) =
    let (found, rest) = without name analyzers in
    if str_eq a.name name then (true, analyzers) else (found, a ∷ rest)

unfoldable pub remove_analyzer : String → Ensemble → Bool × Ensemble
unfolding without
remove_analyzer name e =
    let (found, analyzers) = without name e.analyzers in (found, record e { analyzers = analyzers })

module _ (redact : String → String) where
  -- The loop of `analyze` over the sub-analyzers.
  unfoldable pub sub_assessments : List Analyzer → String → Dict String Value → List RiskAssessment
  unfolding safe_analyze
  sub_assessments [] action context = []
  sub_assessments (a ∷ analyzers) action context =
      safe_analyze redact a action context ∷ sub_assessments analyzers action context

  -- `analyze` of a given list of sub-analyzers.
  unfoldable pub run : String → List Analyzer → String → Dict String Value → RiskAssessment
  unfolding plain is_blank fuse sub_assessments
  run name [] action context =
      plain unknown (colon name "no_analyzers") "No sub-analyzers configured in ensemble"
  run name (a ∷ analyzers) action context =
      if is_blank action
      then plain unknown (colon name "empty") "Empty action — nothing to scan"
      else fuse name (sub_assessments (a ∷ analyzers) action context)

  unfoldable pub analyze : Ensemble → String → Dict String Value → RiskAssessment
  unfolding run
  analyze e action context = run e.name e.analyzers action context
