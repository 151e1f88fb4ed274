-- ===== src/Gate/Recourse/Laws.antt =====
-- What src/admission/assert-recourse-object-required.ts takes for green.
use admissorium.Prelude.{◌≡◌, refl, ◌↔◌, true, false, Option, List, [], ◌∷◌, arith}
use admissorium.Js.{Fields}
use admissorium.Gate.{green}
use admissorium.Gate.Laws.{
  Pass, four_iff, Bound, WhenPresent, AddsNone, projection_checks_iff, Exposes, chain_checks_iff,
}
use admissorium.Gate.Demands.{
  Demand, says, refers, states, sets, bound, agrees, agrees_on, Fulfilled, Pass-demands,
  Pass-object,
}
use admissorium.Gate.Recourse.{
  RecourseInput, recourse_object_checks, recourse_bound_checks, recourse_projection_keys,
  assert_recourse_object_required,
}

-- what the object must say of itself
abbrev pub recourse_demands : Fields → List Demand
recourse_demands recourse =
    says recourse "object_type" "RecourseObject"
    ∷ says recourse "recourse_object_id" "recourse-object-0001"
    ∷ says recourse "status" "ACTIVE_TRUTH"
    ∷ says recourse "claim_class" "recourse-object"
    ∷ says recourse "artifact_id" "artifact-0005"
    ∷ refers recourse "recognition_object_ref" "/recognition/current/recognition-object-0001.json"
    ∷ refers recourse "verification_result_ref"
        "/verification/current/verification-result-0001.json"
    ∷ refers recourse "authority_object_ref" "/authorities/current/authority-object-0001.json"
    ∷ refers recourse "freeze_object_ref" "/freeze/objects/current/freeze-object-0001.json"
    ∷ refers recourse "accepted_epoch_ref" "/epochs/current/accepted-epoch-0001.json"
    ∷ refers recourse "chain_lock_ref" "/chains/current/minimum-object-chain-lock-0001.json"
    ∷ sets recourse true "recognized_truth_bound" []
    ∷ states recourse "claim_posture"
    ∷ states recourse "burden_assignment"
    ∷ states recourse "remedy_path"
    ∷ states recourse "escalation_path"
    ∷ states recourse "closure_state"
    ∷ sets recourse false "may_redefine_recognition"
        ("may_generate_recognition" ∷ "may_mutate_recognition" ∷ [])
    ∷ sets recourse false "may_mutate_verification"
        ("may_mutate_authority" ∷ "may_mutate_accepted_epoch" ∷ "may_mutate_chain_lock" ∷ [])
    ∷ sets recourse false "may_infer_missing_truth" []
    ∷ []

-- what the index and the objects beside it must say
abbrev pub recourse_bindings : RecourseInput → List Demand
recourse_bindings input =
    bound input.recourse_object_index "current_recourse_object_ref"
      "recourse/current/recourse-object-0001.json"
    ∷ bound input.recognition_object "recognition_object_id" "recognition-object-0001"
    ∷ agrees_on input.recognition_object "terminal_recognition" true
    ∷ agrees input.verification_result "verification_result_id" "verification-result-0001"
    ∷ agrees input.authority_object "authority_object_id" "authority-object-0001"
    ∷ agrees input.freeze_object "freeze_object_id" "freeze-object-0001"
    ∷ agrees input.accepted_epoch "accepted_epoch_id" "accepted-epoch-0001"
    ∷ []

recourse_object_checks_iff :
    (o : Option Fields)
    → Pass (recourse_object_checks o) ↔ Bound o (λ recourse. Fulfilled (recourse_demands recourse))
unfolding recourse_object_checks
recourse_object_checks_iff =
    Pass-object recourse_object_checks recourse_demands (λ h. ground arith) (λ recourse. refl)

recourse_bound_checks_iff :
    (input : RecourseInput)
    → Pass (recourse_bound_checks input) ↔ Fulfilled (recourse_bindings input)
unfolding recourse_bound_checks
recourse_bound_checks_iff input =
    Pass-demands (recourse_bound_checks input) (recourse_bindings input) refl

-- The gate is green exactly if the object is there and meets its demands, the bindings are met, the
-- projection adds none of the keys, and the chain lock, if it has a chain, exposes the claim class.
pub assert_recourse_object_required-green_iff :
    (input : RecourseInput)
    → ((assert_recourse_object_required input).status ≡ green) ↔ (
        Bound input.recourse_object (λ recourse. Fulfilled (recourse_demands recourse))
        × Fulfilled (recourse_bindings input)
        × WhenPresent input.projection (AddsNone recourse_projection_keys)
        × WhenPresent input.chain_lock (Exposes "recourse-object"))
unfolding assert_recourse_object_required
assert_recourse_object_required-green_iff input =
    let object_iff = recourse_object_checks_iff input.recourse_object in
    let bound_iff = recourse_bound_checks_iff input in
    let projection_iff =
      projection_checks_iff input.projection recourse_projection_keys
        "PROJECTION_ADDED_RECOURSE_OBJECT"
        "projection surfaces may not add or substitute recourse object truth." in
    let chain_iff =
      chain_checks_iff input.chain_lock "recourse-object" "CHAIN_LOCK_RECOURSE_CLASS_NOT_VISIBLE"
        "active chain lock does not expose recourse-object claim class." refl in
    four_iff "RECOURSE_OBJECT_REQUIRED" _ _ _ _ object_iff bound_iff projection_iff chain_iff
