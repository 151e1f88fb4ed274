-- ===== src/Examples/Gate/Cognition.antt =====
-- The gate of cognition at an input that passes.
use admissorium.Examples.Gate.{entries}
use admissorium.Prelude.{String, ◌≡◌, refl, ◌↔◌, true, none, some, List, [], ◌∷◌, map}
use admissorium.Js.{get, has_own, Fields, Items, end, str, bool, arr, obj, item, no_items}
use admissorium.Gate.{green, report, status_of}
use admissorium.Gate.Laws.{Bound, WhenPresent}
use admissorium.Gate.Cognition.{
  CognitionInput, required_allowed, required_forbidden, required_boundary_true,
  cognition_boundary_checks, cognition_index_checks, cognition_surface_checks,
  claims_sovereign_cognition, assert_cognition_boundary_required,
}
use admissorium.Gate.Cognition.Surfaces.{IsModest, IsForeign}
use admissorium.Gate.Cognition.Index.{IsIndex}
use admissorium.Gate.Cognition.Laws.{
  IsBoundary, anti_overread_rule, assert_cognition_boundary_required-green_iff,
}

abbrev array : List String → Items
array [] = no_items
array (s ∷ ss) = item (str s) (array ss)

abbrev cognition : Fields
cognition = entries (
    ("object_type", str "CognitionBoundary")
    ∷ ("object_id", str "cognition-boundary-0001")
    ∷ ("repo", str "Verifrax/TACHYRIUM")
    ∷ ("status", str "ACTIVE_CURRENT_BOUNDARY")
    ∷ ("allowed_output_classes", arr (array required_allowed))
    ∷ ("forbidden_output_classes", arr (array required_forbidden))
    ∷ ("boundary", obj (entries (map (λ flag. (flag, bool true)) required_boundary_true)))
    ∷ ("minimum_machine_deference_inputs", arr (array ("a" ∷ "b" ∷ "c" ∷ "d" ∷ "e" ∷ "f" ∷ [])))
    ∷ ("anti_overread_rule", str anti_overread_rule)
    ∷ [])

abbrev cognition_index : Fields
cognition_index = entries (
    ("current", str "cognition-boundary-0001")
    ∷ (
      "objects",
      arr (
          item
            (obj (
              entries (
                ("object_id", str "cognition-boundary-0001")
                ∷ ("path", str "cognition/current/cognition-boundary-0001.json")
                ∷ [])))
            no_items),
    )
    ∷ [])

abbrev cognition_input : CognitionInput
cognition_input = record {
  cognition_boundary = some cognition;
  cognition_boundary_index = some cognition_index;
  projection = some end;
  status_surface = none;
  merge_gate_result = some end;
}

assert_cognition_boundary_required-green_iff_example :
    ((assert_cognition_boundary_required cognition_input).status ≡ green) ↔ (
      Bound (some cognition) IsBoundary
      × Bound (some cognition_index) IsIndex
      × WhenPresent (some end) IsModest
      × WhenPresent none IsModest
      × WhenPresent (some end) IsForeign)
assert_cognition_boundary_required-green_iff_example =
    assert_cognition_boundary_required-green_iff cognition_input

-- and the input is one that passes
cognition_input-green : (assert_cognition_boundary_required cognition_input).status ≡ green
unfolding assert_cognition_boundary_required cognition_boundary_checks cognition_index_checks
    cognition_surface_checks claims_sovereign_cognition report status_of get has_own
cognition_input-green = refl
