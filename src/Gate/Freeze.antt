-- ===== src/Gate/Freeze.antt =====
-- src/admission/assert-authority-freeze-required.ts: the authority object binds the frozen object, the
-- epoch and the chain lock, and claims no more than its role. `JSON.stringify` is an argument.
pub mod Laws
use admissorium.Prelude.{
  String, Bool, true, false, not, List, [], ◌∷◌, ◌++◌, map, any, if◌then◌else◌,
}
use admissorium.Text.{◌⧺◌, contains}
use admissorium.Js.{Fields, get}
use admissorium.Gate.{Finding, Check, red_if, findings_of, is_red, differs, is_not, suffix}

pub record FreezeInput : Type 0 where
  pub freeze_object : Fields
  pub authority_object : Fields
  pub accepted_epoch : Fields
  pub chain_lock : Fields

pub data Outcome : Type 0 where
  pass fail : Outcome

pub record FreezeReport : Type 0 where
  pub gate : String
  pub status : Outcome
  pub truth_warning : String
  pub findings : List Finding

abbrev pub forbidden_rights : List String
forbidden_rights =
    "may_mutate_law" ∷ "may_mutate_accepted_state" ∷ "may_mutate_freeze_object"
    ∷ "may_infer_missing_truth" ∷ []

abbrev pub freeze_checks : (Fields → String) → FreezeInput → List Check
freeze_checks stringify input =
    red_if (differs (get input.freeze_object "status") "ACTIVE_TRUTH")
      "FREEZE_OBJECT_NOT_ACTIVE_TRUTH" "Freeze object must be ACTIVE_TRUTH."
    ∷ red_if (differs (get input.authority_object "status") "ACTIVE_TRUTH")
        "AUTHORITY_OBJECT_NOT_ACTIVE_TRUTH" "Authority object must be ACTIVE_TRUTH."
    ∷ red_if (not (contains (stringify input.freeze_object) "freeze-object-0001"))
        "FREEZE_OBJECT_ID_MISSING" "Freeze object must bind freeze-object-0001."
    ∷ []

abbrev pub authority_checks : Fields → List Check
authority_checks authority =
    red_if
      (not (
        suffix (get authority "freeze_object_ref")
          "/freeze/objects/current/freeze-object-0001.json"))
      "AUTHORITY_FREEZE_REF_SUBSTITUTED"
      "Authority object must bind the current freeze-object-0001 path."
    ∷ red_if
        (not
          (suffix (get authority "accepted_epoch_ref") "/epochs/current/accepted-epoch-0001.json"))
        "AUTHORITY_ACCEPTED_EPOCH_REF_SUBSTITUTED" "Authority object must bind accepted-epoch-0001."
    ∷ red_if
        (not (
          suffix (get authority "chain_lock_ref")
            "/chains/current/minimum-object-chain-lock-0001.json"))
        "AUTHORITY_CHAIN_LOCK_REF_SUBSTITUTED"
        "Authority object must bind minimum-object-chain-lock-0001."
    ∷ red_if (is_not (get authority "may_issue_authority_for_scope") true)
        "AUTHORITY_SCOPE_ISSUANCE_NOT_ALLOWED"
        "Authority object must allow authority issuance only for its declared scope."
    ∷ []

abbrev pub right_check : Fields → String → Check
right_check authority key =
    red_if (is_not (get authority key) false) "AUTHORITY_ROLE_OVERCLAIM"
      ("Authority object must not overclaim " ⧺ key ⧺ ".")

abbrev pub context_checks : (Fields → String) → FreezeInput → List Check
context_checks stringify input =
    red_if (not (contains (stringify input.accepted_epoch) "accepted-epoch-0001"))
      "ACCEPTED_EPOCH_CONTEXT_MISSING" "Accepted epoch context must bind accepted-epoch-0001."
    ∷ red_if (not (contains (stringify input.chain_lock) "minimum-object-chain-lock-0001"))
        "CHAIN_LOCK_CONTEXT_MISSING" "Chain lock context must bind minimum-object-chain-lock-0001."
    ∷ []

unfoldable pub freeze_findings : (Fields → String) → FreezeInput → List Finding
freeze_findings stringify input = findings_of (
    freeze_checks stringify input
    ++ authority_checks input.authority_object
    ++ map (right_check input.authority_object) forbidden_rights
    ++ context_checks stringify input)

-- `assertAuthorityFreezeRequired`
unfoldable pub assert_authority_freeze_required : (Fields → String) → FreezeInput → FreezeReport
assert_authority_freeze_required stringify input =
    let findings = freeze_findings stringify input in
    record {
      gate = "AUTHORITY_FREEZE_REQUIRED";
      status = if any is_red findings then fail else pass;
      truth_warning = "ADMISSORIUM_NOT_TRUTH_SOURCE";
      findings = findings;
    }
