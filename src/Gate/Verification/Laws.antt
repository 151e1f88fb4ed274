-- ===== src/Gate/Verification/Laws.antt =====
-- What src/admission/assert-verification-result-required.ts takes for green.
use admissorium.Prelude.{◌≡◌, refl, ◌↔◌, true, false, Option, List, [], ◌∷◌, arith}
use admissorium.Js.{Fields}
use admissorium.Gate.{green}
use admissorium.Gate.Laws.{
  Pass, four_iff, Bound, WhenPresent, AddsNone, projection_checks_iff, Exposes, chain_checks_iff,
}
use admissorium.Gate.Demands.{
  Demand, says, refers, sets, bound, agrees, Fulfilled, Pass-demands, Pass-object,
}
use admissorium.Gate.Verification.{
  VerificationInput, verification_result_checks, verification_bound_checks,
  verification_projection_keys, assert_verification_result_required,
}

-- what the object must say of itself
abbrev pub verification_demands : Fields → List Demand
verification_demands result =
    says result "object_type" "VerificationResult"
    ∷ says result "verification_result_id" "verification-result-0001"
    ∷ says result "status" "ACTIVE_TRUTH"
    ∷ says result "claim_class" "verification-result"
    ∷ says result "artifact_id" "artifact-0005"
    ∷ sets result true "verification_passed" []
    ∷ refers result "replay_bundle_ref" "/replay/current/replay-bundle-0001.json"
    ∷ refers result "authority_object_ref" "/authorities/current/authority-object-0001.json"
    ∷ refers result "freeze_object_ref" "/freeze/objects/current/freeze-object-0001.json"
    ∷ refers result "accepted_epoch_ref" "/epochs/current/accepted-epoch-0001.json"
    ∷ refers result "chain_lock_ref" "/chains/current/minimum-object-chain-lock-0001.json"
    ∷ sets result false "may_recognize_terminal_truth" []
    ∷ sets result false "may_assign_recourse" []
    ∷ sets result false "may_mutate_authority" ("may_mutate_accepted_epoch" ∷ [])
    ∷ sets result false "may_infer_missing_truth" []
    ∷ []

-- what the index and the objects beside it must say
abbrev pub verification_bindings : VerificationInput → List Demand
verification_bindings input =
    bound input.verification_result_index "current_verification_result_ref"
      "verification/current/verification-result-0001.json"
    ∷ agrees input.replay_bundle "replay_bundle_id" "replay-bundle-0001"
    ∷ agrees input.authority_object "authority_object_id" "authority-object-0001"
    ∷ agrees input.freeze_object "freeze_object_id" "freeze-object-0001"
    ∷ agrees input.accepted_epoch "accepted_epoch_id" "accepted-epoch-0001"
    ∷ []

verification_result_checks_iff :
    (o : Option Fields)
    → Pass (verification_result_checks o)
      ↔ Bound o (λ result. Fulfilled (verification_demands result))
unfolding verification_result_checks
verification_result_checks_iff =
    Pass-object verification_result_checks verification_demands (λ h. ground arith) (λ result. refl)

verification_bound_checks_iff :
    (input : VerificationInput)
    → Pass (verification_bound_checks input) ↔ Fulfilled (verification_bindings input)
unfolding verification_bound_checks
verification_bound_checks_iff input =
    Pass-demands (verification_bound_checks input) (verification_bindings input) refl

-- The gate is green exactly if the object is there and meets its demands, the bindings are met, the
-- projection adds none of the keys, and the chain lock, if it has a chain, exposes the claim class.
pub assert_verification_result_required-green_iff :
    (input : VerificationInput)
    → ((assert_verification_result_required input).status ≡ green) ↔ (
        Bound input.verification_result (λ result. Fulfilled (verification_demands result))
        × Fulfilled (verification_bindings input)
        × WhenPresent input.projection (AddsNone verification_projection_keys)
        × WhenPresent input.chain_lock (Exposes "verification-result"))
unfolding assert_verification_result_required
assert_verification_result_required-green_iff input =
    let object_iff = verification_result_checks_iff input.verification_result in
    let bound_iff = verification_bound_checks_iff input in
    let projection_iff =
      projection_checks_iff input.projection verification_projection_keys
        "PROJECTION_ADDED_VERIFICATION_RESULT"
        "projection surfaces may not add or substitute verification result truth." in
    let chain_iff =
      chain_checks_iff input.chain_lock "verification-result"
        "CHAIN_LOCK_VERIFICATION_CLASS_NOT_VISIBLE"
        "active chain lock does not expose verification-result claim class." refl in
    four_iff "VERIFICATION_RESULT_REQUIRED" _ _ _ _ object_iff bound_iff projection_iff chain_iff
