-- ===== src/Gate/Continuity/Laws.antt =====
-- What src/admission/assert-continuity-transfer-required.ts takes for green.
use admissorium.Prelude.{◌≡◌, refl, ◌↔◌, true, false, Option, List, [], ◌∷◌, arith}
use admissorium.Js.{Fields}
use admissorium.Gate.{green}
use admissorium.Gate.Laws.{
  Pass, four_iff, Bound, WhenPresent, AddsNone, projection_checks_iff, Exposes, chain_checks_iff,
}
use admissorium.Gate.Demands.{
  Demand, says, refers, sets, bound, agrees, Fulfilled, Pass-demands, Pass-object,
}
use admissorium.Gate.Continuity.{
  ContinuityInput, continuity_transfer_object_checks, continuity_bound_checks,
  continuity_projection_keys, assert_continuity_transfer_required,
}

-- what the object must say of itself
abbrev pub continuity_demands : Fields → List Demand
continuity_demands continuity =
    says continuity "object_type" "ContinuityTransferObject"
    ∷ says continuity "continuity_transfer_id" "continuity-transfer-0001"
    ∷ says continuity "status" "ACTIVE_TRUTH"
    ∷ says continuity "claim_class" "continuity-transfer"
    ∷ refers continuity "chain_lock_ref" "/chains/current/minimum-object-chain-lock-0001.json"
    ∷ refers continuity "accepted_epoch_ref" "/epochs/current/accepted-epoch-0001.json"
    ∷ refers continuity "authority_object_ref" "/authorities/current/authority-object-0001.json"
    ∷ refers continuity "recognition_object_ref" "/recognition/current/recognition-object-0001.json"
    ∷ refers continuity "recourse_object_ref" "/recourse/current/recourse-object-0001.json"
    ∷ sets continuity true "recorded_not_narrated" []
    ∷ sets continuity true "append_only_continuity" []
    ∷ sets continuity true "historical_chain_reconstructable" []
    ∷ sets continuity true "requires_public_transfer_record_for_future_custody_change" []
    ∷ sets continuity false "may_transfer_authority_without_record"
        ("may_mutate_authority_object" ∷ "may_mutate_accepted_epoch" ∷ "may_mutate_chain_lock" ∷ [])
    ∷ sets continuity false "may_mutate_recognition" ("may_mutate_recourse" ∷ [])
    ∷ sets continuity false "may_infer_missing_truth" []
    ∷ []

-- what the index and the objects beside it must say
abbrev pub continuity_bindings : ContinuityInput → List Demand
continuity_bindings input =
    bound input.continuity_transfer_index "current_continuity_transfer_ref"
      "governance/continuity/current/continuity-transfer-0001.json"
    ∷ agrees input.authority_object "authority_object_id" "authority-object-0001"
    ∷ agrees input.accepted_epoch "accepted_epoch_id" "accepted-epoch-0001"
    ∷ agrees input.recognition_object "recognition_object_id" "recognition-object-0001"
    ∷ agrees input.recourse_object "recourse_object_id" "recourse-object-0001"
    ∷ []

continuity_transfer_object_checks_iff :
    (o : Option Fields)
    → Pass (continuity_transfer_object_checks o)
      ↔ Bound o (λ continuity. Fulfilled (continuity_demands continuity))
unfolding continuity_transfer_object_checks
continuity_transfer_object_checks_iff =
    Pass-object continuity_transfer_object_checks continuity_demands (λ h. ground arith)
      (λ continuity. refl)

continuity_bound_checks_iff :
    (input : ContinuityInput)
    → Pass (continuity_bound_checks input) ↔ Fulfilled (continuity_bindings input)
unfolding continuity_bound_checks
continuity_bound_checks_iff input =
    Pass-demands (continuity_bound_checks input) (continuity_bindings input) refl

-- The gate is green exactly if the object is there and meets its demands, the bindings are met, the
-- projection adds none of the keys, and the chain lock, if it has a chain, exposes the claim class.
pub assert_continuity_transfer_required-green_iff :
    (input : ContinuityInput)
    → ((assert_continuity_transfer_required input).status ≡ green) ↔ (
        Bound input.continuity_transfer_object
          (λ continuity. Fulfilled (continuity_demands continuity))
        × Fulfilled (continuity_bindings input)
        × WhenPresent input.projection (AddsNone continuity_projection_keys)
        × WhenPresent input.chain_lock (Exposes "continuity-transfer"))
unfolding assert_continuity_transfer_required
assert_continuity_transfer_required-green_iff input =
    let object_iff = continuity_transfer_object_checks_iff input.continuity_transfer_object in
    let bound_iff = continuity_bound_checks_iff input in
    let projection_iff =
      projection_checks_iff input.projection continuity_projection_keys
        "PROJECTION_ADDED_CONTINUITY_TRANSFER"
        "projection surfaces may not add or substitute continuity transfer truth." in
    let chain_iff =
      chain_checks_iff input.chain_lock "continuity-transfer"
        "CHAIN_LOCK_CONTINUITY_TRANSFER_CLASS_NOT_VISIBLE"
        "active chain lock does not expose continuity-transfer claim class." refl in
    four_iff "CONTINUITY_TRANSFER_REQUIRED" _ _ _ _ object_iff bound_iff projection_iff chain_iff
