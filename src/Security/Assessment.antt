-- ===== src/Security/Assessment.antt =====
-- app/security/base.py: `RiskAssessment`, `safe_analyze` and `analyze_sequence`. An analyzer is its
-- name and its `analyze`; `redact` is the substitution of `_SECRET_PATTERNS`.
use manus_claw.Prelude.{
  ℕ, Bool, String, List, [], ◌∷◌, ltb, leb, str_eq, append_text, colon, take_chars, if◌then◌else◌,
  Dict, string_eq, insert,
}

pub data SecurityRisk : Type 0 where
  unknown low medium high : SecurityRisk

-- The value of the IntEnum, and its `name`.
abbrev pub level : SecurityRisk → ℕ
level unknown = 0
level low = 1
level medium = 2
level high = 3

unfoldable pub risk_name : SecurityRisk → String
risk_name unknown = "UNKNOWN"
risk_name low = "LOW"
risk_name medium = "MEDIUM"
risk_name high = "HIGH"

-- What `extras` holds.
mutual
  pub data Value : Type 0 where
    text : String → Value
    number : ℕ → Value
    items : Values → Value
    fields : Fields → Value

  pub data Values : Type 0 where
    no_values : Values
    value : Value → Values → Values

  pub data Fields : Type 0 where
    no_fields : Fields
    field : String → Value → Fields → Fields

pub record RiskAssessment : Type 0 where
  pub risk : SecurityRisk
  pub detector_id : String
  pub reason : String
  pub extras : Dict String Value

-- `RiskAssessment(...)` without extras
unfoldable pub plain : SecurityRisk → String → String → RiskAssessment
plain risk detector_id reason = record {
  risk = risk;
  detector_id = detector_id;
  reason = reason;
  extras = [];
}

unfoldable pub is_risky : SecurityRisk → RiskAssessment → Bool
is_risky threshold a = leb (level threshold) (level a.risk)

-- `{**d, **more}` and `d.update(more)`
unfoldable pub updated : Dict String Value → Dict String Value → Dict String Value
unfolding insert
updated d [] = d
updated d ((k, v) ∷ more) = updated (insert k v d) more

unfoldable pub merge : RiskAssessment → RiskAssessment → RiskAssessment
unfolding updated
merge a other =
    if ltb (level a.risk) (level other.risk)
    then other
    else if ltb (level other.risk) (level a.risk)
    then a
    else record {
      risk = other.risk;
      detector_id = append_text a.detector_id (append_text "," other.detector_id);
      reason =
          if str_eq a.reason ""
          then other.reason
          else append_text a.reason (append_text "; " other.reason);
      extras = updated a.extras other.extras;
    }

unfoldable pub fields_of : Dict String Value → Fields
fields_of [] = no_fields
fields_of ((k, v) ∷ d) = field k v (fields_of d)

unfoldable pub to_dict : RiskAssessment → Value
unfolding fields_of risk_name
to_dict a = fields (
    fields_of (
      ("risk", text (risk_name a.risk))
      ∷ ("risk_value", number (level a.risk))
      ∷ ("detector_id", text a.detector_id)
      ∷ ("reason", text a.reason)
      ∷ ("extras", fields (fields_of a.extras))
      ∷ []))

-- What a call of `analyze` does: it returns an assessment or another object, or it raises an
-- exception, given by the name of its type and its text.
pub data Outcome : Type 0 where
  assessed : RiskAssessment → Outcome
  other_object : Outcome
  raises : String → String → Outcome

pub record Analyzer : Type 0 where
  pub name : String
  pub analyze : String → Dict String Value → Outcome

module _ (redact : String → String) where
  -- `safe_analyze` after the call of `analyze`.
  unfoldable pub checked : String → Outcome → RiskAssessment
  unfolding plain
  checked name (assessed a) = a
  checked name other_object =
      plain low (colon name "invalid_return")
        "Analyzer returned non-RiskAssessment; downgraded to LOW"
  checked name (raises type_name message) = record {
    risk = low;
    detector_id = colon name "exception";
    reason = append_text "Analyzer error (sanitised): " (redact (take_chars 300 message));
    extras = ("exception_type", text type_name) ∷ [];
  }

  unfoldable pub safe_analyze : Analyzer → String → Dict String Value → RiskAssessment
  unfolding checked
  safe_analyze analyzer action context = checked analyzer.name (analyzer.analyze action context)

  -- The loop of `analyze_sequence`.
  unfoldable pub merge_all :
      RiskAssessment → List Analyzer → String → Dict String Value → RiskAssessment
  unfolding merge safe_analyze
  merge_all current [] action context = current
  merge_all current (analyzer ∷ analyzers) action context =
      merge_all (merge current (safe_analyze analyzer action context)) analyzers action context

  unfoldable pub analyze_sequence : List Analyzer → String → Dict String Value → RiskAssessment
  unfolding merge_all plain
  analyze_sequence analyzers action context =
      merge_all (plain unknown "base:unknown" "") analyzers action context
