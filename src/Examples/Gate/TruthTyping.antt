-- ===== src/Examples/Gate/TruthTyping.antt =====
-- The gate of truth typing at an input that passes.
use admissorium.Examples.Gate.{entries}
use admissorium.Prelude.{String, ◌≡◌, refl, ◌↔◌, false, none, some, List, [], ◌∷◌}
use admissorium.Js.{Items, Fields, arr, obj, str, bool, item, no_items, get}
use admissorium.Grouping.{unique, unique_from}
use admissorium.Gate.{green, report, status_of}
use admissorium.Gate.Laws.{Bound, WhenPresent}
use admissorium.Gate.TruthTyping.{
  TruthTypingInput, required_categories, required_families, has_duplicate, is_active_truth_claim,
  truth_typing_checks, truth_surface_checks, historical_checks,
  assert_active_historical_truth_typing_required,
}
use admissorium.Gate.TruthTyping.Laws.{
  IsTyping, PointsToTyping, ClaimsNoTruth, IsHistorical,
  assert_active_historical_truth_typing_required-green_iff,
}

abbrev texts : List String → Items
texts [] = no_items
texts (s ∷ ss) = item (str s) (texts ss)

abbrev refs : List String → Items
refs [] = no_items
refs (s ∷ ss) = item (obj (entries (("object_family", str s) ∷ []))) (refs ss)

abbrev typing : Fields
typing = entries (
    ("object_type", str "ActiveHistoricalTruthTyping")
    ∷ ("typing_id", str "active-historical-truth-typing-0001")
    ∷ ("status", str "ACTIVE_TRUTH")
    ∷ ("truth_categories", arr (texts required_categories))
    ∷ ("current_truth_refs", arr (refs required_families))
    ∷ ("current_truth_policy", str "ONE_ACTIVE_TRUTH_PER_OBJECT_FAMILY")
    ∷ ("historical_material_policy", str "MUST_SELF_IDENTIFY_AS_HISTORICAL")
    ∷ ("projection_policy", str "PROJECTIONS_NEVER_ACTIVE_TRUTH")
    ∷ ("status_surface_policy", str "STATUS_SURFACES_NOT_TRUTH_SOURCE")
    ∷ ("may_promote_projection_to_truth", bool false)
    ∷ ("may_promote_status_to_truth", bool false)
    ∷ ("may_promote_historical_snapshot_to_current", bool false)
    ∷ ("may_infer_missing_truth", bool false)
    ∷ [])

abbrev index : Fields
index = entries (
    (
      "current_truth_typing_ref",
      str "truth-typing/current/active-historical-truth-typing-0001.json",
    )
    ∷ [])

abbrev snapshot : Fields
snapshot = entries (("historical_status", str "HISTORICAL_SNAPSHOT") ∷ [])

abbrev typing_input : TruthTypingInput
typing_input = record {
  truth_typing = some typing;
  truth_typing_index = some index;
  projection = some (entries (("status", str "DERIVED_PROJECTION") ∷ []));
  status_surface = none;
  historical_snapshot = some snapshot;
}

assert_active_historical_truth_typing_required-green_iff_example :
    ((assert_active_historical_truth_typing_required typing_input).status ≡ green) ↔ (
      Bound (some typing) IsTyping
      × Bound (some index) PointsToTyping
      × WhenPresent typing_input.projection ClaimsNoTruth
      × WhenPresent none ClaimsNoTruth
      × WhenPresent (some snapshot) IsHistorical)
assert_active_historical_truth_typing_required-green_iff_example =
    assert_active_historical_truth_typing_required-green_iff typing_input

-- and the input is one that passes
typing_input-green : (assert_active_historical_truth_typing_required typing_input).status ≡ green
unfolding assert_active_historical_truth_typing_required truth_typing_checks truth_surface_checks
    historical_checks is_active_truth_claim has_duplicate unique unique_from report status_of get
typing_input-green = refl
