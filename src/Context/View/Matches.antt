-- ===== src/Context/View/Matches.antt =====
-- What `ToolCallMatching.enforce` (app/context/view_properties.py) keeps of each event's calls.
use manus_claw.Prelude.{
  true, false, none, some, inl, inr, String, List, ◌++◌, one_of, ◌≡◌, ◌||◌, ◌&&◌, ◌∷◌, Option-cases,
  arith, Bool-cases, [], eq_refl, sym, append_assoc, refl, Bool, str_eq, ap, eq_iff, ◌∙◌,
  if◌then◌else◌, Option, append-nil,
}
use manus_claw.Context.Events.{
  Event, ToolCall, is_tool, is_assistant, is_caller, response_id, response_ids, declared_ids,
  tool_call_ids, calls_of, ids_of, is_in, truthy, assistant_not_tool, caller_assistant,
  has_tool_calls, tool_not_assistant,
}
use manus_claw.Context.Matching.{is_subset, matched, caller_left, matched_calls}

pub one_of-append :
    (i : String) (a b : List String) → one_of i (a ++ b) ≡ (one_of i a || one_of i b)
one_of-append i [] b = refl
one_of-append i (j ∷ a) b = ground (arith, one_of-append i a b)

-- Every text of `a` is in `b`.
pub subset_of :
    (a b : List String)
    → ((i : String) → one_of i a ≡ true → one_of i b ≡ true)
    → is_subset a b ≡ true
unfolding is_subset
subset_of [] b f = refl
subset_of (i ∷ a) b f =
    let first : one_of i b ≡ true = f i (ground (arith, eq_refl i)) in
    let others : is_subset a b ≡ true = subset_of a b (λ j h. f j (ground (arith, h))) in
    rw (first, others) refl

pub declared_ids-append :
    (es fs : List Event) → declared_ids (es ++ fs) ≡ declared_ids es ++ declared_ids fs
unfolding declared_ids
declared_ids-append [] fs = refl
declared_ids-append (e ∷ es) fs = elim (Bool-cases (is_caller e)) [
  | inl caller ↦
      rw (caller, declared_ids-append es fs)
        (sym (append_assoc (tool_call_ids e) (declared_ids es) (declared_ids fs)))
  | inr other ↦ rw (other, declared_ids-append es fs) refl
]

pub response_ids-append :
    (es fs : List Event) → response_ids (es ++ fs) ≡ response_ids es ++ response_ids fs
unfolding response_ids
response_ids-append [] fs = refl
response_ids-append (e ∷ es) fs = elim (Option-cases (response_id e)) [
  | inl silent ↦ rw (silent, response_ids-append es fs) refl
  | inr (i, answers) ↦ rw (answers, response_ids-append es fs) refl
]

same_one_of :
    (i j : String) (texts : List String) (b : Bool)
    → str_eq i j ≡ true
    → one_of j texts ≡ b
    → one_of i texts ≡ b
same_one_of i j texts b same e = ap (λ k. one_of k texts) ((eq_iff i j).0 same) ∙ e

-- The ids of the calls that have responses.
one_of-matched_calls :
    (i : String) (responses : List String) (calls : List ToolCall)
    → one_of i (ids_of (matched_calls responses calls))
      ≡ (one_of i (ids_of calls) && one_of i responses)
unfolding matched_calls ids_of is_in
one_of-matched_calls i responses [] = refl
one_of-matched_calls i responses (c ∷ calls) =
    let later = one_of-matched_calls i responses calls in
    elim (Option-cases c.id) [
      | inl unnamed ↦ rw unnamed later
      | inr (j, named) ↦ elim (Bool-cases (one_of j responses)) [
        | inl answered ↦
            rw (named, answered)
              (elim (Bool-cases (str_eq i j)) [
                | inl same ↦ ground (arith, same, same_one_of i j responses true same answered)
                | inr other ↦ ground (arith, other, later)
              ])
        | inr lost ↦
            rw (named, lost)
              (elim (Bool-cases (str_eq i j)) [
                | inl same ↦ ground (arith, same, later, same_one_of i j responses false same lost)
                | inr other ↦ ground (arith, other, later)
              ])
      ]
    ]

pub caller_left_ids :
    (e : Event) (calls : List ToolCall) (content : Option String)
    → is_assistant e ≡ true
    → (declared_ids (caller_left e calls content) ≡ ids_of calls)
      × (response_ids (caller_left e calls content) ≡ [])
unfolding caller_left declared_ids response_ids is_caller has_tool_calls tool_call_ids calls_of
    response_id is_tool is_assistant ids_of
caller_left_ids e (c ∷ calls) content h =
    let quiet : is_tool e ≡ false = assistant_not_tool e h in
    (rw h (append-nil (ids_of (c ∷ calls))), rw quiet refl)
caller_left_ids e [] (some text) h =
    let quiet : is_tool e ≡ false = assistant_not_tool e h in (rw h refl, rw quiet refl)
caller_left_ids e [] none h = (refl, refl)

module _ (declared responses : List String) (e : Event) where
  pub matched_caller :
      is_caller e ≡ true
      → matched declared responses e
        ≡ caller_left e (matched_calls responses (calls_of e.tool_calls)) (truthy e.content)
  unfolding matched
  matched_caller caller = rw caller refl

  pub matched_tool :
      is_tool e ≡ true
      → matched declared responses e ≡ (if is_in e.tool_call_id declared then e ∷ [] else [])
  unfolding matched is_caller
  matched_tool tool = rw (tool_not_assistant e tool, tool) refl

  pub matched_plain :
      is_caller e ≡ false → is_tool e ≡ false → matched declared responses e ≡ e ∷ []
  unfolding matched
  matched_plain other plain = rw (other, plain) refl

  declared_ids-other : is_caller e ≡ false → declared_ids (e ∷ []) ≡ []
  unfolding declared_ids
  declared_ids-other other = rw other refl

  declared_ids-caller : is_caller e ≡ true → declared_ids (e ∷ []) ≡ ids_of (calls_of e.tool_calls)
  unfolding declared_ids tool_call_ids
  declared_ids-caller caller = rw caller (append-nil (ids_of (calls_of e.tool_calls)))

  -- What `matched` keeps of the calls that the event makes.
  pub one_of-declared-matched :
      (i : String)
      → one_of i (declared_ids (matched declared responses e))
        ≡ (one_of i (declared_ids (e ∷ [])) && one_of i responses)
  one_of-declared-matched i = elim (Bool-cases (is_caller e)) [
    | inl caller ↦
        let left =
          caller_left_ids e (matched_calls responses (calls_of e.tool_calls)) (truthy e.content)
            (caller_assistant e caller) in
        rw (matched_caller caller, left.0, declared_ids-caller caller)
          (one_of-matched_calls i responses (calls_of e.tool_calls))
    | inr other ↦ elim (Bool-cases (is_tool e)) [
      | inl tool ↦ elim (Bool-cases (is_in e.tool_call_id declared)) [
        | inl kept ↦ rw (matched_tool tool, kept, declared_ids-other other) refl
        | inr dropped ↦
            rw (matched_tool tool, dropped, declared_ids-other other) (unfold declared_ids in refl)
      ]
      | inr plain ↦ rw (matched_plain other plain, declared_ids-other other) refl
    ]
  ]

  truthy-some : (o : Option String) (j : String) → truthy o ≡ some j → o ≡ some j
  unfolding truthy
  truthy-some none j h = cc
  truthy-some (some t) j h = ground (arith, h)

  response_id-call : (j : String) → response_id e ≡ some j → e.tool_call_id ≡ some j
  unfolding response_id
  response_id-call j h = elim (Bool-cases (is_tool e)) [
    | inl tool ↦
        truthy-some e.tool_call_id j
          (ap (λ b. if b then truthy e.tool_call_id else none) (sym tool) ∙ h)
    | inr other ↦
        let h' : ◌≡◌ {A = Option String} none (some j) =
          ap (λ b. if b then truthy e.tool_call_id else none) (sym other) ∙ h in
        cc
  ]

  response_ids-none : response_id e ≡ none → response_ids (e ∷ []) ≡ []
  unfolding response_ids
  response_ids-none h = rw h refl

  response_ids-some : (j : String) → response_id e ≡ some j → response_ids (e ∷ []) ≡ j ∷ []
  unfolding response_ids
  response_ids-some j h = rw h refl

  -- And of the call that it answers.
  pub one_of-response-matched :
      (i : String)
      → one_of i (response_ids (matched declared responses e))
        ≡ (one_of i (response_ids (e ∷ [])) && one_of i declared)
  one_of-response-matched i = elim (Bool-cases (is_tool e)) [
    | inl tool ↦ elim (Option-cases (response_id e)) [
      | inl none_answered ↦ elim (Bool-cases (is_in e.tool_call_id declared)) [
        | inl kept ↦ rw (matched_tool tool, kept, response_ids-none none_answered) refl
        | inr dropped ↦
            rw (matched_tool tool, dropped, response_ids-none none_answered)
              (unfold response_ids in refl)
      ]
      | inr (j, answers) ↦
          let call = response_id-call j answers in
          elim (Bool-cases (one_of j declared)) [
            | inl called ↦
                let kept : is_in e.tool_call_id declared ≡ true = unfold is_in in rw call called in
                rw (matched_tool tool, kept, response_ids-some j answers)
                  (elim (Bool-cases (str_eq i j)) [
                    | inl same ↦ ground (arith, same, same_one_of i j declared true same called)
                    | inr other ↦ ground (arith, other)
                  ])
            | inr uncalled ↦
                let dropped : is_in e.tool_call_id declared ≡ false =
                  unfold is_in in rw call uncalled in
                rw (matched_tool tool, dropped, response_ids-some j answers)
                  (unfold response_ids in
                    elim (Bool-cases (str_eq i j)) [
                      | inl same ↦
                          ground (arith, same, same_one_of i j declared false same uncalled)
                      | inr other ↦ ground (arith, other)
                    ])
          ]
    ]
    | inr silent ↦
        let quiet : response_id e ≡ none = unfold response_id in rw silent refl in
        elim (Bool-cases (is_caller e)) [
          | inl caller ↦
              let left =
                caller_left_ids e (matched_calls responses (calls_of e.tool_calls))
                  (truthy e.content) (caller_assistant e caller) in
              rw (matched_caller caller, left.1, response_ids-none quiet) refl
          | inr other ↦ rw (matched_plain other silent, response_ids-none quiet) refl
        ]
  ]
