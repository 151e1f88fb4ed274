-- ===== src/Gate/Continuity.antt =====
-- src/admission/assert-continuity-transfer-required.ts: whether a transfer of continuity is recorded.
pub mod Laws
use admissorium.Prelude.{
  String, Bool, true, false, not, ◌||◌, Option, none, some, List, [], ◌∷◌, ◌++◌,
}
use admissorium.Js.{Fields, get}
use admissorium.Gate.{
  Check, red_if, Report, report, differs, is_not, suffix, is_unstated, missing_or, present_and,
  projection_checks, chain_checks,
}

pub record ContinuityInput : Type 0 where
  pub continuity_transfer_object : Option Fields
  pub continuity_transfer_index : Option Fields
  pub authority_object : Option Fields
  pub accepted_epoch : Option Fields
  pub chain_lock : Option Fields
  pub recognition_object : Option Fields
  pub recourse_object : Option Fields
  pub projection : Option Fields

unfoldable pub continuity_transfer_object_checks : Option Fields → List Check
continuity_transfer_object_checks none =
    red_if true "CONTINUITY_TRANSFER_OBJECT_MISSING" "continuity-transfer-0001 is absent." ∷ []
continuity_transfer_object_checks (some continuity) =
    red_if (differs (get continuity "object_type") "ContinuityTransferObject")
      "CONTINUITY_TRANSFER_WRONG_OBJECT_TYPE"
      "continuity object_type must be ContinuityTransferObject."
    ∷ red_if (differs (get continuity "continuity_transfer_id") "continuity-transfer-0001")
        "CONTINUITY_TRANSFER_SUBSTITUTION"
        "continuity transfer object id is not continuity-transfer-0001."
    ∷ red_if (differs (get continuity "status") "ACTIVE_TRUTH")
        "CONTINUITY_TRANSFER_NOT_ACTIVE_TRUTH" "continuity transfer object must be ACTIVE_TRUTH."
    ∷ red_if (differs (get continuity "claim_class") "continuity-transfer")
        "CONTINUITY_TRANSFER_WRONG_CLAIM_CLASS"
        "continuity transfer object must bind claim_class=continuity-transfer."
    ∷ red_if
        (not (
          suffix (get continuity "chain_lock_ref")
            "/chains/current/minimum-object-chain-lock-0001.json"))
        "CONTINUITY_TRANSFER_CHAIN_LOCK_REF_DRIFT"
        "continuity transfer object must bind minimum-object-chain-lock-0001."
    ∷ red_if
        (not
          (suffix (get continuity "accepted_epoch_ref") "/epochs/current/accepted-epoch-0001.json"))
        "CONTINUITY_TRANSFER_ACCEPTED_EPOCH_REF_DRIFT"
        "continuity transfer object must bind accepted-epoch-0001."
    ∷ red_if
        (not (
          suffix (get continuity "authority_object_ref")
            "/authorities/current/authority-object-0001.json"))
        "CONTINUITY_TRANSFER_AUTHORITY_REF_DRIFT"
        "continuity transfer object must bind authority-object-0001."
    ∷ red_if
        (not (
          suffix (get continuity "recognition_object_ref")
            "/recognition/current/recognition-object-0001.json"))
        "CONTINUITY_TRANSFER_RECOGNITION_REF_DRIFT"
        "continuity transfer object must bind recognition-object-0001."
    ∷ red_if
        (not (
          suffix (get continuity "recourse_object_ref")
            "/recourse/current/recourse-object-0001.json"))
        "CONTINUITY_TRANSFER_RECOURSE_REF_DRIFT"
        "continuity transfer object must bind recourse-object-0001."
    ∷ red_if (is_not (get continuity "recorded_not_narrated") true)
        "CONTINUITY_TRANSFER_NOT_RECORDED" "continuity transfer must be recorded, not narrated."
    ∷ red_if (is_not (get continuity "append_only_continuity") true)
        "CONTINUITY_TRANSFER_NOT_APPEND_ONLY"
        "continuity transfer must preserve append-only continuity."
    ∷ red_if (is_not (get continuity "historical_chain_reconstructable") true)
        "CONTINUITY_TRANSFER_NOT_RECONSTRUCTABLE"
        "continuity transfer must preserve historical chain reconstructability."
    ∷ red_if
        (is_not (get continuity "requires_public_transfer_record_for_future_custody_change") true)
        "FUTURE_TRANSFER_RECORD_REQUIREMENT_MISSING"
        "future custody change must require public transfer record."
    ∷ red_if
        (is_not (get continuity "may_transfer_authority_without_record") false
          || is_not (get continuity "may_mutate_authority_object") false
          || is_not (get continuity "may_mutate_accepted_epoch") false
          || is_not (get continuity "may_mutate_chain_lock") false)
        "CONTINUITY_TRANSFER_AUTHORITY_OVERCLAIM"
        "continuity transfer may not execute authority transfer or mutate authority/state/chain objects."
    ∷ red_if
        (is_not (get continuity "may_mutate_recognition") false
          || is_not (get continuity "may_mutate_recourse") false)
        "CONTINUITY_TRANSFER_TERMINAL_OVERCLAIM"
        "continuity transfer may not mutate recognition or recourse."
    ∷ red_if (is_not (get continuity "may_infer_missing_truth") false)
        "CONTINUITY_TRANSFER_INFERENCE_OVERCLAIM" "continuity transfer may not infer missing truth."
    ∷ []

unfoldable pub continuity_bound_checks : ContinuityInput → List Check
continuity_bound_checks input =
    red_if
      (missing_or input.continuity_transfer_index (λ index.
        differs (get index "current_continuity_transfer_ref")
          "governance/continuity/current/continuity-transfer-0001.json"))
      "CONTINUITY_TRANSFER_INDEX_DRIFT"
      "continuity transfer index must point to continuity-transfer-0001."
    ∷ red_if
        (present_and input.authority_object
          (λ bound. differs (get bound "authority_object_id") "authority-object-0001"))
        "AUTHORITY_OBJECT_SUBSTITUTION" "bound authority object must be authority-object-0001."
    ∷ red_if
        (present_and input.accepted_epoch
          (λ bound. differs (get bound "accepted_epoch_id") "accepted-epoch-0001"))
        "ACCEPTED_EPOCH_SUBSTITUTION" "bound accepted epoch must be accepted-epoch-0001."
    ∷ red_if
        (present_and input.recognition_object
          (λ bound. differs (get bound "recognition_object_id") "recognition-object-0001"))
        "RECOGNITION_OBJECT_SUBSTITUTION"
        "bound recognition object must be recognition-object-0001."
    ∷ red_if
        (present_and input.recourse_object
          (λ bound. differs (get bound "recourse_object_id") "recourse-object-0001"))
        "RECOURSE_OBJECT_SUBSTITUTION" "bound recourse object must be recourse-object-0001."
    ∷ []

abbrev pub continuity_projection_keys : List String
continuity_projection_keys =
    "continuity_transfer_id" ∷ "continuityTransfer" ∷ "continuity_transfer" ∷ "transfer" ∷ []

-- `assertContinuityTransferRequired`
unfoldable pub assert_continuity_transfer_required : ContinuityInput → Report
assert_continuity_transfer_required input = report "CONTINUITY_TRANSFER_REQUIRED" (
    continuity_transfer_object_checks input.continuity_transfer_object
    ++ continuity_bound_checks input
    ++ projection_checks input.projection continuity_projection_keys
        "PROJECTION_ADDED_CONTINUITY_TRANSFER"
        "projection surfaces may not add or substitute continuity transfer truth."
    ++ chain_checks input.chain_lock "continuity-transfer"
        "CHAIN_LOCK_CONTINUITY_TRANSFER_CLASS_NOT_VISIBLE"
        "active chain lock does not expose continuity-transfer claim class.")
