-- ===== src/Permissions/Approval.antt =====
-- When `check_tool` of app/permissions/gate.py lets a call run, by the keys of approved calls.
use manus_claw.Prelude.{
  Bool, true, false, not, ◌&&◌, ◌||◌, String, Option, none, some, List, [], ◌∷◌, ◌≡◌, refl, ap, ◌∙◌,
  str_eq, one_of, arith, if◌then◌else◌,
}
use manus_claw.Permissions.Gate.{
  PermissionTier, allow, ask, deny, AgentMode, build, plan, Checked, tier, permission_denied,
  PermissionGate, Args, new_gate, allow_tools, ask_tools, extract_content, nonempty,
  is_catastrophic, approval_key, approve, asked, resolve_tier, check_tool, request_approval, is_yes,
  answered,
}

-- A call of a method that may approve: directly, or by the user's answer.
pub data Call : Type 0 where
  approves : String → Args → Call
  requests_approval : String → Args → Option String → Call

abbrev pub is_allowed : Checked → Bool
is_allowed (tier allow) = true
is_allowed (tier ask) = false
is_allowed (tier deny) = false
is_allowed permission_denied = false

abbrev pub is_build : AgentMode → Bool
is_build build = true
is_build plan = false

granted_only : (b : Bool) → is_allowed (tier (if b then allow else ask)) ≡ b
granted_only true = refl
granted_only false = refl

blocked :
    (c : Bool) (t : PermissionTier)
    → is_allowed (if c then permission_denied else tier t) ≡ (not c && is_allowed (tier t))
blocked true t = refl
blocked false t = refl

listed :
    (a b : Bool) (t : PermissionTier)
    → is_allowed (tier (if a then allow else if b then t else ask))
      ≡ (a || (b && is_allowed (tier t)))
listed true b t = refl
listed false true t = refl
listed false false t = refl

module _ (digest : String → String) (show_args : Args → String) where
  abbrev pub after : Call → PermissionGate → PermissionGate
  after (approves tool_name args) g = approve digest show_args tool_name args g
  after (requests_approval tool_name args answer) g =
      (request_approval digest show_args tool_name args answer g).1

  abbrev pub after_all : List Call → PermissionGate → PermissionGate
  after_all [] g = g
  after_all (call ∷ calls) g = after_all calls (after call g)

  -- The call approves the key.
  abbrev pub grants_key : String → Call → Bool
  grants_key key (approves tool_name args) =
      str_eq key (approval_key digest show_args tool_name args)
  grants_key key (requests_approval tool_name args none) = false
  grants_key key (requests_approval tool_name args (some answer)) =
      one_of answer ("y" ∷ "yes" ∷ []) && str_eq key (approval_key digest show_args tool_name args)

  abbrev pub is_key_granted : String → List Call → Bool
  is_key_granted key [] = false
  is_key_granted key (call ∷ calls) = grants_key key call || is_key_granted key calls

  answered-approved :
      (key tool_name : String) (args : Args) (b : Bool) (g : PermissionGate)
      → one_of key (answered digest show_args b tool_name args g).1.approved_this_session ≡ (
          (b && str_eq key (approval_key digest show_args tool_name args))
          || one_of key g.approved_this_session)
  unfolding answered approve
  answered-approved key tool_name args true g = refl
  answered-approved key tool_name args false g = refl

  after-approved :
      (key : String) (call : Call) (g : PermissionGate)
      → one_of key (after call g).approved_this_session
        ≡ (grants_key key call || one_of key g.approved_this_session)
  unfolding request_approval
  after-approved key (approves tool_name args) g = unfold approve in refl
  after-approved key (requests_approval tool_name args none) g = refl
  after-approved key (requests_approval tool_name args (some answer)) g =
      answered-approved key tool_name args (is_yes answer) g

  answered-mode :
      (tool_name : String) (args : Args) (b : Bool) (g : PermissionGate)
      → (answered digest show_args b tool_name args g).1.mode ≡ g.mode
  unfolding answered approve
  answered-mode tool_name args true g = refl
  answered-mode tool_name args false g = refl

  after-mode : (call : Call) (g : PermissionGate) → (after call g).mode ≡ g.mode
  unfolding request_approval
  after-mode (approves tool_name args) g = unfold approve in refl
  after-mode (requests_approval tool_name args none) g = refl
  after-mode (requests_approval tool_name args (some answer)) g =
      answered-mode tool_name args (is_yes answer) g

  after_all-mode : (calls : List Call) (g : PermissionGate) → (after_all calls g).mode ≡ g.mode
  after_all-mode [] g = refl
  after_all-mode (call ∷ calls) g = after_all-mode calls (after call g) ∙ after-mode call g

  after_all-approved :
      (key : String) (calls : List Call) (g : PermissionGate)
      → one_of key (after_all calls g).approved_this_session
        ≡ (is_key_granted key calls || one_of key g.approved_this_session)
  after_all-approved key [] g = refl
  after_all-approved key (call ∷ calls) g =
      after_all-approved key calls (after call g) ∙ ground (arith, after-approved key call g)

  asked-is_allowed :
      (mode : AgentMode) (tool_name : String) (args : Args) (approved : List String)
      → is_allowed (tier (asked digest show_args mode tool_name args approved))
        ≡ (is_build mode || one_of (approval_key digest show_args tool_name args) approved)
  unfolding asked
  asked-is_allowed build tool_name args approved = refl
  asked-is_allowed plan tool_name args approved =
      granted_only (one_of (approval_key digest show_args tool_name args) approved)

  module _ (search : String → String → Bool) where
    pub check_tool-by_key :
        (mode : AgentMode) (calls : List Call) (tool_name : String) (args : Args)
        → is_allowed
            (check_tool digest show_args search (after_all calls (new_gate mode)) tool_name args)
          ≡ (not (is_catastrophic search tool_name (nonempty (extract_content tool_name args)))
              && (one_of tool_name allow_tools
                  || (one_of tool_name ask_tools
                      && (is_build mode
                          || is_key_granted (approval_key digest show_args tool_name args) calls))))
    unfolding check_tool resolve_tier
    check_tool-by_key mode calls tool_name args =
        let g = after_all calls (new_gate mode) in
        let key = approval_key digest show_args tool_name args in
        let asks = asked digest show_args g.mode tool_name args g.approved_this_session in
        let a = one_of tool_name allow_tools in
        let b = one_of tool_name ask_tools in
        let c = is_catastrophic search tool_name (nonempty (extract_content tool_name args)) in
        let same_mode : g.mode ≡ mode =
          after_all-mode calls (new_gate mode) ∙ unfold new_gate in refl in
        let same_keys : one_of key g.approved_this_session ≡ is_key_granted key calls =
          after_all-approved key calls (new_gate mode) ∙ unfold new_gate in ground arith in
        let asked_allowed : is_allowed (tier asks) ≡ (is_build mode || is_key_granted key calls) =
          asked-is_allowed g.mode tool_name args g.approved_this_session
          ∙ ap (λ m. is_build m || one_of key g.approved_this_session) same_mode
          ∙ ap (λ x. is_build mode || x) same_keys in
        blocked c (if a then allow else if b then asks else ask)
        ∙ ap (λ x. not c && x) (listed a b asks)
        ∙ ap (λ x. not c && (a || (b && x))) asked_allowed
