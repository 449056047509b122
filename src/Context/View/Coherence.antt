-- ===== src/Context/View/Coherence.antt =====
-- The cache of a `View` (app/context/view.py) under its in-place methods.
use mathlib.Core.Option.{some-injective}
use manus_claw.Prelude.{ℕ, ◌≡◌, [], refl, none, sym}
use manus_claw.Context.Events.{Event, ViewProperty}
use manus_claw.Context.View.{
  View, new_view, add, add_events, set_keep_first, enforce_properties, invalidate_cache,
  manipulation_indices, cached_or_computed, compute_indices, List, Option, ◌∷◌, some,
}

-- A call of a method that changes the view.
pub data Call : Type 0 where
  calls_add : Event → Call
  calls_add_events : List Event → Call
  sets_keep_first : ℕ → Call
  calls_enforce_properties : Call
  reads_manipulation_indices : Call

abbrev pub after : Call → View → View
after (calls_add e) v = add e v
after (calls_add_events es) v = add_events es v
after (sets_keep_first value) v = set_keep_first value v
after calls_enforce_properties v = enforce_properties v
after reads_manipulation_indices v = (manipulation_indices v).1

abbrev pub after_all : List Call → View → View
after_all [] v = v
after_all (call ∷ calls) v = after_all calls (after call v)

-- A valid cache holds what the view would compute.
abbrev IsCoherent : View → Type 0
IsCoherent v = (indices : List ℕ) → v.cache ≡ some indices → indices ≡ compute_indices v

cached-IsCoherent :
    (o : Option (List ℕ)) (v : View)
    → v.cache ≡ o
    → IsCoherent v
    → IsCoherent (cached_or_computed o v).1 × ((cached_or_computed o v).0 ≡ compute_indices v)
unfolding cached_or_computed
cached-IsCoherent (some indices) v e h = (h, h indices e)
cached-IsCoherent none v e h =
    ((λ indices f. unfold compute_indices in sym (some-injective _ _ f)), refl)

after-IsCoherent : (call : Call) (v : View) → IsCoherent v → IsCoherent (after call v)
unfolding add add_events set_keep_first enforce_properties invalidate_cache manipulation_indices
after-IsCoherent (calls_add e) v h indices f = cc
after-IsCoherent (calls_add_events es) v h indices f = cc
after-IsCoherent (sets_keep_first value) v h indices f = cc
after-IsCoherent calls_enforce_properties v h indices f = cc
after-IsCoherent reads_manipulation_indices v h indices f =
    (cached-IsCoherent v.cache v refl h).0 indices f

after_all-IsCoherent :
    (calls : List Call) (v : View) → IsCoherent v → IsCoherent (after_all calls v)
after_all-IsCoherent [] v h = h
after_all-IsCoherent (call ∷ calls) v h =
    after_all-IsCoherent calls (after call v) (after-IsCoherent call v h)

-- Whatever methods were called on a new view, `manipulation_indices` returns what it would compute
-- from the events, properties and `keep_first` of that moment: the cache is never stale.
pub manipulation_indices-eq-compute_indices :
    (es : List Event) (properties : List ViewProperty) (keep_first : ℕ) (calls : List Call)
    → let v = after_all calls (new_view es properties keep_first) in
      (manipulation_indices v).0 ≡ compute_indices v
unfolding manipulation_indices
manipulation_indices-eq-compute_indices es properties keep_first calls =
    let v = after_all calls (new_view es properties keep_first) in
    (cached-IsCoherent v.cache v refl (
      after_all-IsCoherent calls (new_view es properties keep_first)
        (unfold new_view in λ indices f. cc))).1
