-- ===== src/Context/Rolling/Window.antt =====
-- What `RollingCondenser` (app/context/condenser/rolling.py) may forget.
use mathlib.Core.Option.{some-injective}
use mathlib.Core.Path.{subst}
use manus_claw.Prelude.{
  true, false, ◌+◌, ◌-◌, ◌&&◌, if◌then◌else◌, ℕ, ◌≡◌, ◌≤◌, ◌⊎◌, inr, ◌<◌, [], Bool-cases, ap, inl,
  sym, arith, refl,
}
use manus_claw.Context.Events.{Event}
use manus_claw.Context.View.{View, manipulation_indices}
use manus_claw.Context.Rolling.{
  CondensationReason, CondensationAction, condense, forgotten, action_for, List, String, some, ◌∷◌,
  length, elem, suc, true, leb, ltb, Bool, Option, none,
}

-- The text is the id of an event at a position, from `i` on, that satisfies the predicate.
abbrev pub IsIdAt : (ℕ → Type 0) → String → ℕ → List Event → Type 0
IsIdAt P id i [] = ⊥
IsIdAt P id i (e ∷ es) = (P i × (id ≡ e.id)) ⊎ IsIdAt P id (suc i) es

abbrev pub AllIds : (String → Type 0) → List String → Type 0
AllIds P [] = Unit
AllIds P (i ∷ ids) = P i × AllIds P ids

abbrev pub IsRemovable : ℕ → ℕ → List ℕ → ℕ → Type 0
IsRemovable start stop manipulable i = (start ≤ i) × (i < stop) × (elem i manipulable ≡ true)

AllIds-map :
    (P Q : String → Type 0) (ids : List String)
    → ((id : String) → P id → Q id)
    → AllIds P ids
    → AllIds Q ids
AllIds-map P Q [] f all = tt
AllIds-map P Q (i ∷ ids) f (p, all) = (f i p, AllIds-map P Q ids f all)

forgotten-IsRemovable :
    (start stop : ℕ) (manipulable : List ℕ) (i : ℕ) (es : List Event)
    → AllIds
        (λ id. IsIdAt (IsRemovable start stop manipulable) id i es)
        (forgotten start stop manipulable i es)
unfolding forgotten
forgotten-IsRemovable start stop manipulable i [] = tt
forgotten-IsRemovable start stop manipulable i (e ∷ es) =
    let later =
      AllIds-map _ (λ id. IsIdAt (IsRemovable start stop manipulable) id i (e ∷ es)) _
        (λ id p. inr p) (forgotten-IsRemovable start stop manipulable (suc i) es) in
    elim (Bool-cases (leb start i && ltb i stop && elem i manipulable)) [
      | inl here ↦
          rw here
            (inl ((ground (arith, here), ground (arith, here), ground (arith, here)), refl), later)
      | inr not_here ↦ rw not_here later
    ]

action_for_ids :
    (reason : CondensationReason) (ids : List String) (action : CondensationAction)
    → action_for reason ids ≡ some action
    → action.forgotten_event_ids ≡ ids
unfolding action_for
action_for_ids reason [] action e = cc
action_for_ids reason (i ∷ ids) action e =
    ap (λ (a : CondensationAction). a.forgotten_event_ids) (sym (some-injective _ _ e))

-- A result of `condense` comes from its last branch.
last_branch :
    (small kept : Bool) (v w x : View) (o : Option CondensationAction) (action : CondensationAction)
    → (if◌then◌else◌ {A = Option CondensationAction × View} small
        (none, v)
        (if kept then (none, w) else (o, x))).0
      ≡ some action
    → o ≡ some action
last_branch true kept v w x o action e = cc
last_branch false true v w x o action e = cc
last_branch false false v w x o action e = e

-- An action of `condense` forgets only ids of events behind the first `keep_first` ones and before the
-- last `max_events`, at positions that the view lists as safe to remove.
pub condense-IsRemovable :
    (max_events : ℕ) (v : View) (reason : CondensationReason) (action : CondensationAction)
    → (condense max_events v reason).0 ≡ some action
    → AllIds
        (λ id.
          IsIdAt
            (IsRemovable v.keep_first (length v.events - max_events) (manipulation_indices v).0)
            id
            0
            v.events)
        action.forgotten_event_ids
unfolding condense
condense-IsRemovable max_events v reason action e =
    let (manipulable, v') = manipulation_indices v in
    let stop = length v.events - max_events in
    let made =
      last_branch (leb (length v.events) (max_events + v.keep_first)) (leb stop v.keep_first) v v'
        v' (action_for reason (forgotten v.keep_first stop manipulable 0 v.events)) action e in
    subst (AllIds (λ id. IsIdAt (IsRemovable v.keep_first stop manipulable) id 0 v.events))
      (sym (action_for_ids reason (forgotten v.keep_first stop manipulable 0 v.events) action made))
      (forgotten-IsRemovable v.keep_first stop manipulable 0 v.events)
