-- ===== src/Gate/Recognition/Laws.antt =====
-- What src/admission/assert-recognition-object-required.ts takes for green.
use admissorium.Prelude.{◌≡◌, refl, ◌↔◌, true, false, Option, List, [], ◌∷◌, arith}
use admissorium.Js.{Fields}
use admissorium.Gate.{green}
use admissorium.Gate.Laws.{
  Pass, four_iff, Bound, WhenPresent, AddsNone, projection_checks_iff, Exposes, chain_checks_iff,
}
use admissorium.Gate.Demands.{
  Demand, says, refers, sets, bound, agrees, Fulfilled, Pass-demands, Pass-object,
}
use admissorium.Gate.Recognition.{
  RecognitionInput, recognition_object_checks, recognition_bound_checks,
  recognition_projection_keys, assert_recognition_object_required,
}

-- what the object must say of itself
abbrev pub recognition_demands : Fields → List Demand
recognition_demands recognition =
    says recognition "object_type" "RecognitionObject"
    ∷ says recognition "recognition_object_id" "recognition-object-0001"
    ∷ says recognition "status" "ACTIVE_TRUTH"
    ∷ says recognition "claim_class" "recognition-object"
    ∷ says recognition "artifact_id" "artifact-0005"
    ∷ sets recognition true "recognition_passed" ("terminal_recognition" ∷ [])
    ∷ refers recognition "verification_result_ref"
        "/verification/current/verification-result-0001.json"
    ∷ refers recognition "replay_bundle_ref" "/replay/current/replay-bundle-0001.json"
    ∷ refers recognition "authority_object_ref" "/authorities/current/authority-object-0001.json"
    ∷ refers recognition "freeze_object_ref" "/freeze/objects/current/freeze-object-0001.json"
    ∷ refers recognition "accepted_epoch_ref" "/epochs/current/accepted-epoch-0001.json"
    ∷ refers recognition "chain_lock_ref" "/chains/current/minimum-object-chain-lock-0001.json"
    ∷ sets recognition false "recourse_ready" []
    ∷ sets recognition false "may_assign_recourse" ("may_select_remedy" ∷ "may_close_recourse" ∷ [])
    ∷ sets recognition false "may_mutate_verification"
        ("may_mutate_authority" ∷ "may_mutate_accepted_epoch" ∷ [])
    ∷ sets recognition false "may_infer_missing_truth" []
    ∷ []

-- what the index and the objects beside it must say
abbrev pub recognition_bindings : RecognitionInput → List Demand
recognition_bindings input =
    bound input.recognition_object_index "current_recognition_object_ref"
      "recognition/current/recognition-object-0001.json"
    ∷ agrees input.verification_result "verification_result_id" "verification-result-0001"
    ∷ agrees input.replay_bundle "replay_bundle_id" "replay-bundle-0001"
    ∷ agrees input.authority_object "authority_object_id" "authority-object-0001"
    ∷ agrees input.freeze_object "freeze_object_id" "freeze-object-0001"
    ∷ agrees input.accepted_epoch "accepted_epoch_id" "accepted-epoch-0001"
    ∷ []

recognition_object_checks_iff :
    (o : Option Fields)
    → Pass (recognition_object_checks o)
      ↔ Bound o (λ recognition. Fulfilled (recognition_demands recognition))
unfolding recognition_object_checks
recognition_object_checks_iff =
    Pass-object recognition_object_checks recognition_demands (λ h. ground arith)
      (λ recognition. refl)

recognition_bound_checks_iff :
    (input : RecognitionInput)
    → Pass (recognition_bound_checks input) ↔ Fulfilled (recognition_bindings input)
unfolding recognition_bound_checks
recognition_bound_checks_iff input =
    Pass-demands (recognition_bound_checks input) (recognition_bindings input) refl

-- The gate is green exactly if the object is there and meets its demands, the bindings are met, the
-- projection adds none of the keys, and the chain lock, if it has a chain, exposes the claim class.
pub assert_recognition_object_required-green_iff :
    (input : RecognitionInput)
    → ((assert_recognition_object_required input).status ≡ green) ↔ (
        Bound input.recognition_object (λ recognition. Fulfilled (recognition_demands recognition))
        × Fulfilled (recognition_bindings input)
        × WhenPresent input.projection (AddsNone recognition_projection_keys)
        × WhenPresent input.chain_lock (Exposes "recognition-object"))
unfolding assert_recognition_object_required
assert_recognition_object_required-green_iff input =
    let object_iff = recognition_object_checks_iff input.recognition_object in
    let bound_iff = recognition_bound_checks_iff input in
    let projection_iff =
      projection_checks_iff input.projection recognition_projection_keys
        "PROJECTION_ADDED_RECOGNITION_OBJECT"
        "projection surfaces may not add or substitute recognition object truth." in
    let chain_iff =
      chain_checks_iff input.chain_lock "recognition-object"
        "CHAIN_LOCK_RECOGNITION_CLASS_NOT_VISIBLE"
        "active chain lock does not expose recognition-object claim class." refl in
    four_iff "RECOGNITION_OBJECT_REQUIRED" _ _ _ _ object_iff bound_iff projection_iff chain_iff
