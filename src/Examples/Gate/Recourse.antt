-- ===== src/Examples/Gate/Recourse.antt =====
-- The gate of recourse at an input that passes.
use admissorium.Examples.Gate.{entries, lock}
use admissorium.Prelude.{◌≡◌, refl, ◌↔◌, true, false, some, [], ◌∷◌}
use admissorium.Js.{get, has_own, Fields, end, str, bool}
use admissorium.Text.{ends_with}
use admissorium.Gate.{green, projection_checks, chain_checks, report, status_of}
use admissorium.Gate.Laws.{Bound, WhenPresent, AddsNone, Exposes}
use admissorium.Gate.Demands.{Fulfilled}
use admissorium.Gate.Recourse.{
  RecourseInput, recourse_projection_keys, recourse_object_checks, recourse_bound_checks,
  assert_recourse_object_required,
}
use admissorium.Gate.Recourse.Laws.{
  recourse_demands, recourse_bindings, assert_recourse_object_required-green_iff,
}

abbrev recourse : Fields
recourse = entries (
    ("object_type", str "RecourseObject")
    ∷ ("recourse_object_id", str "recourse-object-0001")
    ∷ ("status", str "ACTIVE_TRUTH")
    ∷ ("claim_class", str "recourse-object")
    ∷ ("artifact_id", str "artifact-0005")
    ∷ (
      "recognition_object_ref",
      str "https://example.org/recognition/current/recognition-object-0001.json",
    )
    ∷ (
      "verification_result_ref",
      str "https://example.org/verification/current/verification-result-0001.json",
    )
    ∷ (
      "authority_object_ref",
      str "https://example.org/authorities/current/authority-object-0001.json",
    )
    ∷ (
      "freeze_object_ref",
      str "https://example.org/freeze/objects/current/freeze-object-0001.json",
    )
    ∷ ("accepted_epoch_ref", str "https://example.org/epochs/current/accepted-epoch-0001.json")
    ∷ (
      "chain_lock_ref",
      str "https://example.org/chains/current/minimum-object-chain-lock-0001.json",
    )
    ∷ ("recognized_truth_bound", bool true)
    ∷ ("claim_posture", str "stated")
    ∷ ("burden_assignment", str "stated")
    ∷ ("remedy_path", str "stated")
    ∷ ("escalation_path", str "stated")
    ∷ ("closure_state", str "stated")
    ∷ ("may_redefine_recognition", bool false)
    ∷ ("may_generate_recognition", bool false)
    ∷ ("may_mutate_recognition", bool false)
    ∷ ("may_mutate_verification", bool false)
    ∷ ("may_mutate_authority", bool false)
    ∷ ("may_mutate_accepted_epoch", bool false)
    ∷ ("may_mutate_chain_lock", bool false)
    ∷ ("may_infer_missing_truth", bool false)
    ∷ [])

abbrev recourse_input : RecourseInput
recourse_input = record {
  recourse_object = some recourse;
  recourse_object_index = some (
      entries
        (("current_recourse_object_ref", str "recourse/current/recourse-object-0001.json") ∷ []));
  recognition_object = some (
      entries (
        ("recognition_object_id", str "recognition-object-0001")
        ∷ ("terminal_recognition", bool true)
        ∷ []));
  verification_result =
      some (entries (("verification_result_id", str "verification-result-0001") ∷ []));
  authority_object = some (entries (("authority_object_id", str "authority-object-0001") ∷ []));
  freeze_object = some (entries (("freeze_object_id", str "freeze-object-0001") ∷ []));
  accepted_epoch = some (entries (("accepted_epoch_id", str "accepted-epoch-0001") ∷ []));
  chain_lock = some (lock "recourse-object");
  projection = some end;
}

assert_recourse_object_required-green_iff_example :
    ((assert_recourse_object_required recourse_input).status ≡ green) ↔ (
      Bound (some recourse) (λ o. Fulfilled (recourse_demands o))
      × Fulfilled (recourse_bindings recourse_input)
      × WhenPresent (some end) (AddsNone recourse_projection_keys)
      × WhenPresent (some (lock "recourse-object")) (Exposes "recourse-object"))
assert_recourse_object_required-green_iff_example =
    assert_recourse_object_required-green_iff recourse_input

-- and the input is one that passes
recourse_input-green : (assert_recourse_object_required recourse_input).status ≡ green
unfolding assert_recourse_object_required recourse_object_checks recourse_bound_checks
    projection_checks chain_checks report status_of ends_with get has_own
recourse_input-green = refl
