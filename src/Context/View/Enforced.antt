-- ===== src/Context/View/Enforced.antt =====
-- What the default properties of app/context/view_properties.py establish together.
use manus_claw.Prelude.{
  ◌&&◌, if◌then◌else◌, ap, sym, ◌∙◌, true, false, none, some, inl, inr, ◌≡◌, arith, Option-cases,
  [], Bool-cases, refl, ◌⊎◌,
}
use manus_claw.Context.Events.{
  Event, response_id, response_ids, declared_ids, is_caller, is_tool, ToolCall, calls_of, truthy,
  is_in,
}
use manus_claw.Context.Uniqueness.{uniqueness_check, uniqueness_enforce}
use manus_claw.Context.Matching.{
  matching_check, matching_enforce, match_all, matched, caller_left, matched_calls,
}
use manus_claw.Context.View.{
  List, String, ◌∷◌, one_of, enforce_properties, enforce_all, new_view, Option, invalidate_cache,
  or_default_properties, ℕ,
}
use manus_claw.Context.Batches.{batch_enforce}
use manus_claw.Context.Loops.{loop_enforce}
use manus_claw.Context.View.Matches.{
  one_of-append, subset_of, declared_ids-append, response_ids-append, one_of-declared-matched,
  one_of-response-matched, matched_caller, matched_tool, matched_plain,
}

module _ (declared responses : List String) (i : String) where
  one_of-declared-match_all :
      (es : List Event)
      → one_of i (declared_ids (match_all declared responses es))
        ≡ (one_of i (declared_ids es) && one_of i responses)
  unfolding match_all
  one_of-declared-match_all [] = unfold declared_ids in refl
  one_of-declared-match_all (e ∷ es) =
      let rest = match_all declared responses es in
      rw (declared_ids-append (matched declared responses e) rest, declared_ids-append (e ∷ []) es)
        (ground (
          arith,
          one_of-append i (declared_ids (matched declared responses e)) (declared_ids rest),
          one_of-append i (declared_ids (e ∷ [])) (declared_ids es),
          one_of-declared-matched declared responses e i,
          one_of-declared-match_all es,
        ))

  one_of-response-match_all :
      (es : List Event)
      → one_of i (response_ids (match_all declared responses es))
        ≡ (one_of i (response_ids es) && one_of i declared)
  unfolding match_all
  one_of-response-match_all [] = unfold response_ids in refl
  one_of-response-match_all (e ∷ es) =
      let rest = match_all declared responses es in
      rw (response_ids-append (matched declared responses e) rest, response_ids-append (e ∷ []) es)
        (ground (
          arith,
          one_of-append i (response_ids (matched declared responses e)) (response_ids rest),
          one_of-append i (response_ids (e ∷ [])) (response_ids es),
          one_of-response-matched declared responses e i,
          one_of-response-match_all es,
        ))

matching_enforce-check : (es : List Event) → matching_check (matching_enforce es) ≡ true
unfolding matching_check matching_enforce
matching_enforce-check es =
    let d = declared_ids es in
    let r = response_ids es in
    let forth =
      subset_of (declared_ids (match_all d r es)) (response_ids (match_all d r es)) (λ i h.
        ground
          (arith, h, one_of-declared-match_all d r i es, one_of-response-match_all d r i es)) in
    let back = subset_of (response_ids (match_all d r es)) (declared_ids (match_all d r es)) (λ i h.
      ground (arith, h, one_of-declared-match_all d r i es, one_of-response-match_all d r i es)) in
    rw (forth, back) refl

module _ (seen : List String) (e : Event) (es : List Event) where
  enforce_silent :
      response_id e ≡ none → uniqueness_enforce seen (e ∷ es) ≡ e ∷ uniqueness_enforce seen es
  unfolding uniqueness_enforce
  enforce_silent silent = rw (silent, uniqueness_enforce) refl

  check_silent : response_id e ≡ none → uniqueness_check seen (e ∷ es) ≡ uniqueness_check seen es
  unfolding uniqueness_check
  check_silent silent = rw (silent, uniqueness_check) refl

  module _ (i : String) (answers : response_id e ≡ some i) where
    enforce_answer : uniqueness_enforce seen (e ∷ es) ≡ (
        if one_of i seen then uniqueness_enforce seen es else e ∷ uniqueness_enforce (i ∷ seen) es)
    unfolding uniqueness_enforce
    enforce_answer = elim (Bool-cases (one_of i seen)) [
      | inl again ↦ rw (answers, again, uniqueness_enforce) refl
      | inr first ↦ rw (answers, first, uniqueness_enforce) refl
    ]

    check_answer :
        uniqueness_check seen (e ∷ es)
        ≡ (if one_of i seen then false else uniqueness_check (i ∷ seen) es)
    unfolding uniqueness_check
    check_answer = rw (answers, uniqueness_check) refl

uniqueness_enforce-check :
    (seen : List String) (es : List Event)
    → uniqueness_check seen (uniqueness_enforce seen es) ≡ true
uniqueness_enforce-check seen [] = unfold uniqueness_enforce in unfold uniqueness_check in refl
uniqueness_enforce-check seen (e ∷ es) = elim (Option-cases (response_id e)) [
  | inl silent ↦
      rw (enforce_silent seen e es silent, check_silent seen e (uniqueness_enforce seen es) silent)
        (uniqueness_enforce-check seen es)
  | inr (i, answers) ↦ elim (Bool-cases (one_of i seen)) [
    | inl again ↦ rw (enforce_answer seen e es i answers, again) (uniqueness_enforce-check seen es)
    | inr first ↦
        rw
          (
            enforce_answer seen e es i answers,
            first,
            check_answer seen e (uniqueness_enforce (i ∷ seen) es) i answers,
            first,
          )
          (uniqueness_enforce-check (i ∷ seen) es)
  ]
]

-- Fewer seen ids make no more repeats.
uniqueness_check_fewer :
    (seen more : List String) (es : List Event)
    → ((i : String) → one_of i seen ≡ true → one_of i more ≡ true)
    → uniqueness_check more es ≡ true
    → uniqueness_check seen es ≡ true
uniqueness_check_fewer seen more [] f h = unfold uniqueness_check in refl
uniqueness_check_fewer seen more (e ∷ es) f h = elim (Option-cases (response_id e)) [
  | inl silent ↦
      rw (check_silent seen e es silent)
        (uniqueness_check_fewer seen more es f (sym (check_silent more e es silent) ∙ h))
  | inr (i, answers) ↦
      let h' = sym (check_answer more e es i answers) ∙ h in
      let fresh : one_of i more ≡ false = ground (arith, h') in
      let later : uniqueness_check (i ∷ more) es ≡ true =
        ap (λ b. if b then false else uniqueness_check (i ∷ more) es) (sym fresh) ∙ h' in
      let unseen : one_of i seen ≡ false = ground (arith, fresh, f i) in
      rw (check_answer seen e es i answers, unseen)
        (uniqueness_check_fewer (i ∷ seen) (i ∷ more) es (λ j b. ground (arith, b, f j)) later)
]

-- What becomes of an event answers what the event answers.
caller_left_shape :
    (e : Event) (calls : List ToolCall) (content : Option String)
    → (caller_left e calls content ≡ [])
      ⊎ ((f : Event) × (caller_left e calls content ≡ f ∷ []) × (response_id f ≡ response_id e))
unfolding caller_left response_id is_tool
caller_left_shape e (c ∷ calls) content =
    inr (record e { tool_calls = some (c ∷ calls) }, refl, refl)
caller_left_shape e [] (some text) = inr (record e { tool_calls = none }, refl, refl)
caller_left_shape e [] none = inl refl

matched_shape :
    (declared responses : List String) (e : Event)
    → (matched declared responses e ≡ [])
      ⊎ ((f : Event) × (matched declared responses e ≡ f ∷ []) × (response_id f ≡ response_id e))
matched_shape declared responses e = elim (Bool-cases (is_caller e)) [
  | inl caller ↦
      rw (matched_caller declared responses e caller)
        (caller_left_shape e (matched_calls responses (calls_of e.tool_calls)) (truthy e.content))
  | inr other ↦ elim (Bool-cases (is_tool e)) [
    | inl tool ↦ elim (Bool-cases (is_in e.tool_call_id declared)) [
      | inl kept ↦ rw (matched_tool declared responses e tool, kept) (inr (e, refl, refl))
      | inr dropped ↦ rw (matched_tool declared responses e tool, dropped) (inl refl)
    ]
    | inr plain ↦ rw (matched_plain declared responses e other plain) (inr (e, refl, refl))
  ]
]

uniqueness_check_tail :
    (seen : List String) (e : Event) (es : List Event)
    → uniqueness_check seen (e ∷ es) ≡ true
    → uniqueness_check seen es ≡ true
uniqueness_check_tail seen e es h = elim (Option-cases (response_id e)) [
  | inl silent ↦ sym (check_silent seen e es silent) ∙ h
  | inr (i, answers) ↦
      let h' = sym (check_answer seen e es i answers) ∙ h in
      let fresh : one_of i seen ≡ false = ground (arith, h') in
      uniqueness_check_fewer seen (i ∷ seen) es (λ j b. ground (arith, b))
        (ap (λ b. if b then false else uniqueness_check (i ∷ seen) es) (sym fresh) ∙ h')
]

match_all-keeps_unique :
    (declared responses seen : List String) (es : List Event)
    → uniqueness_check seen es ≡ true
    → uniqueness_check seen (match_all declared responses es) ≡ true
unfolding match_all
match_all-keeps_unique declared responses seen [] h = h
match_all-keeps_unique declared responses seen (e ∷ es) h =
    let rest = match_all declared responses es in
    elim (matched_shape declared responses e) [
      | inl gone ↦
          rw gone
            (match_all-keeps_unique declared responses seen es (uniqueness_check_tail seen e es h))
      | inr (f, left, same) ↦ rw left (elim (Option-cases (response_id e)) [
        | inl silent ↦ rw (check_silent seen f rest (same ∙ silent)) (
            match_all-keeps_unique declared responses seen es
              (sym (check_silent seen e es silent) ∙ h))
        | inr (i, answers) ↦
            let h' = sym (check_answer seen e es i answers) ∙ h in
            let fresh : one_of i seen ≡ false = ground (arith, h') in
            rw (check_answer seen f rest i (same ∙ answers), fresh)
              (match_all-keeps_unique declared responses (i ∷ seen) es
                (ap (λ b. if b then false else uniqueness_check (i ∷ seen) es) (sym fresh) ∙ h'))
      ])
    ]

-- With the default properties, `enforce_properties` leaves a view in which no call is answered twice
-- and the calls that are declared are those that are answered.
pub enforce_properties-checks :
    (es : List Event) (keep_first : ℕ)
    → let out = (enforce_properties (new_view es [] keep_first)).events in
      (uniqueness_check [] out ≡ true) × (matching_check out ≡ true)
unfolding enforce_properties enforce_all new_view loop_enforce invalidate_cache
    or_default_properties
enforce_properties-checks es keep_first =
    let unique = uniqueness_enforce [] (batch_enforce es) in
    (
      unfold matching_enforce in
          match_all-keeps_unique (declared_ids unique) (response_ids unique) [] unique
            (uniqueness_enforce-check [] (batch_enforce es)),
      matching_enforce-check unique,
    )
