-- ===== src/Permissions/SameCall.antt =====
-- What an approval of app/permissions/gate.py approves. `digest` and `show_args` are those of Gate;
-- 32 hexadecimal digits are kept of a digest.
use manus_claw.Prelude.{false, false}
use manus_claw.Prelude.{
  Bool, false, not, ◌&&◌, ◌||◌, String, none, some, List, [], ◌∷◌, ◌≡◌, str_eq, one_of,
  if◌then◌else◌, lookup_or, string_eq,
}
use manus_claw.Permissions.Gate.{Args}
use manus_claw.Permissions.Approval.{Call, approves, requests_approval}

module _ (show_args : Args → String) where
  -- What the user sees of a call: the command of `bash`, the code of `python_execute`, and of other
  -- tools, or when that is missing or empty, all arguments.
  abbrev pub subject : String → Args → String
  subject tool_name args =
      let command = lookup_or "" "command" args in
      let code = lookup_or "" "code" args in
      if str_eq tool_name "bash" && not (str_eq command "")
      then command
      else if str_eq tool_name "python_execute" && not (str_eq code "")
      then code
      else show_args args

  -- The tools of two calls are the same, and so are their subjects.
  abbrev pub is_same_call : String → Args → String → Args → Bool
  is_same_call tool_name args t a =
      str_eq tool_name t && str_eq (subject tool_name args) (subject t a)

  -- The call of a method approves the tool's call.
  abbrev pub grants : String → Args → Call → Bool
  grants tool_name args (approves t a) = is_same_call tool_name args t a
  grants tool_name args (requests_approval t a none) = false
  grants tool_name args (requests_approval t a (some answer)) =
      one_of answer ("y" ∷ "yes" ∷ []) && is_same_call tool_name args t a

  abbrev pub is_granted : String → Args → List Call → Bool
  is_granted tool_name args [] = false
  is_granted tool_name args (call ∷ calls) =
      grants tool_name args call || is_granted tool_name args calls

  abbrev pub subject_of : Call → String
  subject_of (approves t a) = subject t a
  subject_of (requests_approval t a answer) = subject t a

  module _ (digest : String → String) where
    -- No subject of the calls other than the text itself has the digest of the text.
    abbrev pub HasNoCollision : String → List Call → Type 0
    HasNoCollision text [] = Unit
    HasNoCollision text (call ∷ calls) =
        (digest text ≡ digest (subject_of call) → text ≡ subject_of call)
        × HasNoCollision text calls
