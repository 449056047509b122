-- ===== src/Context/Uniqueness.antt =====
-- `ObservationUniqueness` of app/context/view_properties.py.
use manus_claw.Prelude.{
  ℕ, suc, Bool, true, false, String, none, some, List, [], ◌∷◌, ◌==◌, one_of, if◌then◌else◌,
}
use manus_claw.Context.Events.{Event, response_id, ViewProperty}

unfoldable pub uniqueness_check : List String → List Event → Bool
uniqueness_check seen [] = true
uniqueness_check seen (e ∷ es) = elim (response_id e) [
  | none ↦ uniqueness_check seen es
  | some i ↦ if one_of i seen then false else uniqueness_check (i ∷ seen) es
]

unfoldable pub uniqueness_enforce : List String → List Event → List Event
uniqueness_enforce seen [] = []
uniqueness_enforce seen (e ∷ es) = elim (response_id e) [
  | none ↦ e ∷ uniqueness_enforce seen es
  | some i ↦ elim (one_of i seen) [
    | true ↦ uniqueness_enforce seen es
    | false ↦ e ∷ uniqueness_enforce (i ∷ seen) es
  ]
]

-- The positions, from `i`, other than 0 and the first responses to each call.
unfoldable pub repeats : ℕ → List String → List Event → List ℕ
unfolding response_id
repeats i seen [] = []
repeats i seen (e ∷ es) = elim (response_id e) [
  | none ↦ (let rest = repeats (suc i) seen es in if i == 0 then rest else i ∷ rest)
  | some call ↦ elim (one_of call seen) [
    | true ↦ (let rest = repeats (suc i) seen es in if i == 0 then rest else i ∷ rest)
    | false ↦ repeats (suc i) (call ∷ seen) es
  ]
]

abbrev pub observation_uniqueness : ViewProperty
observation_uniqueness = record {
  class_name = "ObservationUniqueness";
  check = uniqueness_check [];
  enforce = uniqueness_enforce [];
  safe_indices = repeats 0 [];
}
