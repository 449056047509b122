-- ===== src/Permissions/Gate.antt =====
-- `PermissionGate` of app/permissions/gate.py. Arguments are texts. `search` is `re.search` with the
-- flags of the source as a test of a pattern on a text, `digest` the first 32 digits of a SHA-256
-- digest, and `show_args` the text of the sorted arguments.
use manus_claw.Prelude.{
  Bool, true, false, String, Option, none, some, List, [], ◌∷◌, ◌++◌, str_eq, one_of, colon,
  if◌then◌else◌, Dict, lookup_or, string_eq,
}

pub data PermissionTier : Type 0 where
  allow ask deny : PermissionTier

pub data AgentMode : Type 0 where
  build plan : AgentMode

pub data Checked : Type 0 where
  tier : PermissionTier → Checked
  permission_denied : Checked

pub record PermissionGate : Type 0 where
  pub mode : AgentMode
  pub approved_this_session : List String

abbrev pub Args : Type 0
Args = Dict String String

unfoldable pub new_gate : AgentMode → PermissionGate
new_gate mode = record { mode = mode; approved_this_session = [] }

abbrev pub allow_tools : List String
allow_tools =
    "web_search" ∷ "crawl" ∷ "str_replace_editor_view" ∷ "ask_human" ∷ "planning" ∷ "terminate"
    ∷ "data_viz" ∷ []

abbrev pub ask_tools : List String
ask_tools =
    "bash" ∷ "python_execute" ∷ "str_replace_editor" ∷ "browser_use" ∷ "platform_control"
    ∷ "delegate" ∷ []

abbrev pub deny_tools : List String
deny_tools = []

abbrev pub deny_command_patterns : List String
deny_command_patterns =
    "rm\\s+-[rRf]+\\s+/\\s*$" ∷ "rm\\s+-[rRf]+\\s+/\\*" ∷ "rm\\s+--no-preserve-root"
    ∷ "chmod\\s+777\\s+/" ∷ "chown\\s+\\S+\\s+/\\s*$" ∷ "sudo\\s+rm\\s+-[rRf]+\\s+/"
    ∷ ":\\(\\)\\s*\\{.*:\\|:.*\\}" ∷ "dd\\s+if=/dev/zero\\s+of=/dev/(s|h|v|xv)d"
    ∷ ">\\s*/dev/(s|h|v|xv)d[a-z]$" ∷ "mkfs\\." ∷ "fdisk.*--wipe" ∷ "wipefs" ∷ "kill\\s+-9\\s+-1\\b"
    ∷ "killall\\s+-9\\b" ∷ "shred\\s+.*(bin|sbin|lib|usr|etc)/" ∷ []

abbrev pub deny_code_patterns : List String
deny_code_patterns =
    "os\\.fork\\(\\).*while True" ∷ "multiprocessing.*spawn.*while True"
    ∷ "open\\(['\"]\\/dev\\/(s|h)d" ∷ []

unfoldable pub extract_content : String → Args → Option String
unfolding lookup_or
extract_content tool_name args =
    if str_eq tool_name "bash"
    then some (lookup_or "" "command" args)
    else if str_eq tool_name "python_execute"
    then some (lookup_or "" "code" args)
    else none

unfoldable pub is_yes : String → Bool
is_yes answer = one_of answer ("y" ∷ "yes" ∷ [])

-- `content or ...`, and `if content:`
unfoldable pub nonempty : Option String → Option String
nonempty none = none
nonempty (some s) = if str_eq s "" then none else some s

unfoldable pub patterns_for : String → List String
patterns_for tool_name =
    if str_eq tool_name "bash"
    then deny_command_patterns
    else if str_eq tool_name "python_execute"
    then deny_code_patterns
    else deny_command_patterns ++ deny_code_patterns

module _ (search : String → String → Bool) where
  unfoldable pub any_match : List String → String → Bool
  any_match [] content = false
  any_match (p ∷ patterns) content = if search p content then true else any_match patterns content

  unfoldable pub is_catastrophic : String → Option String → Bool
  unfolding any_match patterns_for
  is_catastrophic tool_name none = false
  is_catastrophic tool_name (some content) = any_match (patterns_for tool_name) content

module _ (digest : String → String) (show_args : Args → String) where
  unfoldable pub key_text : Args → Option String → String
  key_text args none = show_args args
  key_text args (some content) = content

  unfoldable pub approval_key : String → Args → String
  unfolding key_text nonempty extract_content
  approval_key tool_name args =
      colon tool_name (digest (key_text args (nonempty (extract_content tool_name args))))

  unfoldable pub approve : String → Args → PermissionGate → PermissionGate
  unfolding approval_key
  approve tool_name args g = record g {
    approved_this_session = approval_key tool_name args ∷ g.approved_this_session;
  }

  unfoldable pub asked : AgentMode → String → Args → List String → PermissionTier
  unfolding approval_key
  asked build tool_name args approved = allow
  asked plan tool_name args approved =
      if one_of (approval_key tool_name args) approved then allow else ask

  unfoldable pub resolve_tier : PermissionGate → String → Args → PermissionTier
  unfolding asked
  resolve_tier g tool_name args =
      if one_of tool_name allow_tools
      then allow
      else if one_of tool_name ask_tools
      then asked g.mode tool_name args g.approved_this_session
      else ask

  module _ (search : String → String → Bool) where
    unfoldable pub check_tool : PermissionGate → String → Args → Checked
    unfolding resolve_tier is_catastrophic nonempty extract_content
    check_tool g tool_name args =
        if one_of tool_name deny_tools
        then permission_denied
        else if is_catastrophic search tool_name (nonempty (extract_content tool_name args))
        then permission_denied
        else tier (resolve_tier g tool_name args)

  unfoldable pub answered : Bool → String → Args → PermissionGate → Bool × PermissionGate
  unfolding approve
  answered true tool_name args g = (true, approve tool_name args g)
  answered false tool_name args g = (false, g)

  -- `request_approval`, with the user's answer in lower case and without blanks around it; `none` is
  -- the EOFError.
  unfoldable pub request_approval :
      String → Args → Option String → PermissionGate → Bool × PermissionGate
  unfolding answered is_yes
  request_approval tool_name args none g = (false, g)
  request_approval tool_name args (some answer) g = answered (is_yes answer) tool_name args g

unfoldable pub is_build_mode : PermissionGate → Bool
is_build_mode g = elim g.mode [ build ↦ true | plan ↦ false ]

unfoldable pub is_plan_mode : PermissionGate → Bool
is_plan_mode g = elim g.mode [ build ↦ false | plan ↦ true ]
