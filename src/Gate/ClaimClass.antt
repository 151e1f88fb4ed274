-- ===== src/Gate/ClaimClass.antt =====
-- src/admission/assert-claim-class-admission-required.ts: the claim classes of the law, of the accepted
-- state and of the chain lock stand in one order. The severities RED and YELLOW are the statuses red
-- and yellow of Gate; an order and a stage are natural numbers.
pub mod Laws
use admissorium.Prelude.{
  ℕ, String, ◌==◌, Bool, true, false, not, ◌&&◌, List, [], ◌∷◌, ◌++◌, map, length, nat_eq,
}
use admissorium.Text.{◌⧺◌}
use admissorium.Sorting.{sort_by}
use admissorium.Gate.{Finding, Check, red_if, yellow_if, findings_of}

pub record AdmittedClaimClass : Type 0 where
  pub order : ℕ
  pub claim_class : String
  pub owner : String
  pub required : Bool

pub record ClaimClassAdmission : Type 0 where
  pub object_type : String
  pub status : String
  pub admitted_claim_classes : List AdmittedClaimClass

pub record AcceptedClaimClassState : Type 0 where
  pub object_type : String
  pub status : String
  pub accepted_claim_classes : List String

pub record ChainLink : Type 0 where
  pub stage : ℕ
  pub claim_class : String
  pub owner : String
  pub object_ref : String
  pub status : String

pub record ChainLock : Type 0 where
  pub object_type : String
  pub status : String
  pub chain : List ChainLink

unfoldable pub ordered_law_classes : ClaimClassAdmission → List String
ordered_law_classes admission =
    map (λ x. x.claim_class) (sort_by (λ x. x.order) admission.admitted_claim_classes)

unfoldable pub ordered_chain_classes : ChainLock → List String
ordered_chain_classes chain_lock =
    map (λ x. x.claim_class) (sort_by (λ x. x.stage) chain_lock.chain)

-- `left.every((x, i) => x === right[i])`
abbrev pub every_same : (left right : List String) → Bool
every_same [] right = true
every_same (x ∷ left) [] = false
every_same (x ∷ left) (y ∷ right) = (x == y) && every_same left right

unfoldable pub same_order : (left right : List String) → Bool
same_order left right = nat_eq (length left) (length right) && every_same left right

abbrev pub says_checks : ClaimClassAdmission → AcceptedClaimClassState → ChainLock → List Check
says_checks admission accepted_state chain_lock =
    red_if (not (admission.object_type == "ClaimClassAdmission"))
      "CLAIM_CLASS_ADMISSION_WRONG_OBJECT_TYPE"
      "Claim-class admission object_type must be ClaimClassAdmission."
    ∷ red_if (not (admission.status == "ACTIVE_LAW")) "CLAIM_CLASS_ADMISSION_NOT_ACTIVE_LAW"
        "Claim-class admission must be ACTIVE_LAW."
    ∷ red_if (not (accepted_state.object_type == "AcceptedClaimClassState"))
        "ACCEPTED_CLAIM_CLASS_STATE_WRONG_OBJECT_TYPE"
        "Accepted claim-class state object_type must be AcceptedClaimClassState."
    ∷ red_if (not (accepted_state.status == "ACTIVE_TRUTH"))
        "ACCEPTED_CLAIM_CLASS_STATE_NOT_ACTIVE_TRUTH"
        "Accepted claim-class state must be ACTIVE_TRUTH."
    ∷ red_if (not (chain_lock.object_type == "MinimumObjectChainLock"))
        "CHAINLOCK_WRONG_OBJECT_TYPE" "Chain lock object_type must be MinimumObjectChainLock."
    ∷ red_if (not (chain_lock.status == "ACTIVE_TRUTH")) "CHAINLOCK_NOT_ACTIVE_TRUTH"
        "Chain lock must be ACTIVE_TRUTH."
    ∷ []

abbrev pub order_checks : (law accepted chain : List String) → List Check
order_checks law accepted chain =
    red_if (not (same_order law accepted)) "CLAIM_CLASS_LAW_STATE_MISMATCH"
      "Claim-class law order does not match accepted claim-class state."
    ∷ red_if (not (same_order accepted chain)) "ACCEPTED_CLAIM_CLASS_CHAINLOCK_MISMATCH"
        "Accepted claim-class state does not match active chain lock."
    ∷ []

abbrev pub required_check : AdmittedClaimClass → Check
required_check cls =
    yellow_if (not cls.required) "CLAIM_CLASS_NOT_REQUIRED"
      (cls.claim_class ⧺ " is admitted but not required.")

unfoldable pub claim_class_checks :
    ClaimClassAdmission → AcceptedClaimClassState → ChainLock → List Check
claim_class_checks admission accepted_state chain_lock =
    says_checks admission accepted_state chain_lock
    ++ order_checks (ordered_law_classes admission) accepted_state.accepted_claim_classes
        (ordered_chain_classes chain_lock)
    ++ map required_check admission.admitted_claim_classes

-- `assertClaimClassAdmissionRequired`
unfoldable pub assert_claim_class_admission_required :
    ClaimClassAdmission → AcceptedClaimClassState → ChainLock → List Finding
assert_claim_class_admission_required admission accepted_state chain_lock =
    findings_of (claim_class_checks admission accepted_state chain_lock)
