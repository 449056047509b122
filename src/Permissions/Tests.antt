-- ===== src/Permissions/Tests.antt =====
-- Runs of the permission gate of app/permissions/gate.py, with a pattern found only as the whole text.
use manus_claw.Prelude.{String, List, [], ◌∷◌, ◌≡◌, refl, some, str_eq}
use manus_claw.Permissions.Gate.{
  Args, build, plan, new_gate, check_tool, tier, allow, ask, permission_denied, is_catastrophic,
  nonempty, extract_content, request_approval, resolve_tier, asked,
}
use manus_claw.Prelude.{if◌then◌else◌}
use manus_claw.Permissions.Approval.{Call, requests_approval, after_all}

abbrev digest : String → String
digest s = s

abbrev show_args : Args → String
show_args args = "{}"

abbrev list_files : Args
list_files = ("command", "ls") ∷ []

abbrev some_calls : List Call
some_calls = requests_approval "bash" list_files (some "y") ∷ []

asks_first : check_tool digest show_args str_eq (new_gate plan) "bash" list_files ≡ tier ask
unfolding check_tool new_gate nonempty extract_content is_catastrophic resolve_tier asked
asks_first = refl

then_allows :
    check_tool digest show_args str_eq
      (after_all digest show_args some_calls (new_gate plan))
      "bash"
      list_files
    ≡ tier allow
unfolding check_tool request_approval new_gate
then_allows = refl

blocks :
    check_tool digest show_args str_eq (new_gate build) "bash" (("command", "wipefs") ∷ [])
    ≡ permission_denied
unfolding check_tool new_gate nonempty extract_content is_catastrophic resolve_tier asked
blocks = refl

-- A digest of 32 digits that tells one text from all others.
abbrev hex_digest : String → String
hex_digest s =
    if str_eq s "ls" then "00000000000000000000000000000001" else "00000000000000000000000000000000"

-- The timeout of a command is no part of its subject.
abbrev list_slowly : Args
list_slowly = ("command", "ls") ∷ ("timeout", "600") ∷ []
