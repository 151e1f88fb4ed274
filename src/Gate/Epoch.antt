-- ===== src/Gate/Epoch.antt =====
-- src/admission/assert-accepted-epoch-required.ts: the accepted epoch agrees with the chain lock and
-- with the admissions. The severities RED and YELLOW are the statuses red and yellow of Gate; stages and
-- counts are natural numbers, and an object of counts is the list of its entries.
pub mod Laws
use admissorium.Prelude.{
  ℕ, Char, String, ◌==◌, Bool, true, false, not, ◌&&◌, Option, none, some, List, [], ◌∷◌, ◌++◌, map,
  length, nat_eq, if◌then◌else◌,
}
use admissorium.Text.{◌⧺◌, is_empty, ends_with, to_upper_case, print_count}
use admissorium.Sorting.{sort_by}
use admissorium.Gate.{Finding, Check, red_if, findings_of}
use admissorium.Gate.ClaimClass.{ChainLink, same_order}

abbrev pub Counts : Type 0
Counts = List (String × ℕ)

pub record AcceptedEpoch : Type 0 where
  pub object_type : String
  pub accepted_epoch_id : String
  pub status : String
  pub epoch_stage_count : ℕ
  pub accepted_claim_classes : List String
  pub accepted_counts : Counts

pub record EpochChainLock : Type 0 where
  pub object_type : String
  pub status : String
  pub accepted_epoch_ref : Option String
  pub chain : List ChainLink

pub record Admissions : Type 0 where
  pub status : String
  pub count_policy : Counts

-- `counts[key]`
abbrev pub count_of : Counts → String → Option ℕ
count_of [] key = none
count_of ((k, n) ∷ counts) key = let rest = count_of counts key in if k == key then some n else rest

-- `count === n`
abbrev pub is_count : Option ℕ → ℕ → Bool
is_count none n = false
is_count (some m) n = nat_eq m n

abbrev pub show_count : Option ℕ → String
show_count none = "undefined"
show_count (some n) = print_count n

-- `orderedChainClasses`
unfoldable pub ordered_stages : List ChainLink → List String
ordered_stages chain = map (λ x. x.claim_class) (sort_by (λ x. x.stage) chain)

abbrev pub object_checks : AcceptedEpoch → EpochChainLock → Admissions → List Check
object_checks epoch chain_lock admissions =
    red_if (not (epoch.object_type == "AcceptedEpoch")) "ACCEPTED_EPOCH_WRONG_OBJECT_TYPE"
      "Accepted epoch object_type must be AcceptedEpoch."
    ∷ red_if (not (epoch.accepted_epoch_id == "accepted-epoch-0001")) "ACCEPTED_EPOCH_ID_MISMATCH"
        "Accepted epoch id must be accepted-epoch-0001."
    ∷ red_if (not (epoch.status == "ACTIVE_TRUTH")) "ACCEPTED_EPOCH_NOT_ACTIVE_TRUTH"
        "Accepted epoch must be ACTIVE_TRUTH."
    ∷ red_if (not (chain_lock.object_type == "MinimumObjectChainLock"))
        "CHAINLOCK_WRONG_OBJECT_TYPE" "Chain lock object_type must be MinimumObjectChainLock."
    ∷ red_if (not (chain_lock.status == "ACTIVE_TRUTH")) "CHAINLOCK_NOT_ACTIVE_TRUTH"
        "Chain lock must be ACTIVE_TRUTH."
    ∷ red_if (not (admissions.status == "ACTIVE_TRUTH")) "ADMISSIONS_NOT_ACTIVE_TRUTH"
        "Admissions object must be ACTIVE_TRUTH."
    ∷ []

abbrev pub stage_checks : AcceptedEpoch → (chain_classes : List String) → List Check
stage_checks epoch chain_classes =
    red_if (not (nat_eq epoch.epoch_stage_count (length chain_classes)))
      "ACCEPTED_EPOCH_STAGE_COUNT_MISMATCH"
      ("Accepted epoch stage count "
        ⧺ print_count epoch.epoch_stage_count
        ⧺ " does not match chain stage count "
        ⧺ print_count (length chain_classes)
        ⧺ ".")
    ∷ red_if (not (same_order epoch.accepted_claim_classes chain_classes))
        "ACCEPTED_EPOCH_CHAIN_CLASS_MISMATCH"
        "Accepted epoch claim classes do not match active chain lock."
    ∷ []

abbrev pub count_check : (Char → String) → AcceptedEpoch → String × ℕ → Check
count_check capitals epoch (key, accepted) =
    let held = count_of epoch.accepted_counts key in
    red_if (not (is_count held accepted))
      ("ACCEPTED_EPOCH_COUNT_MISMATCH_" ⧺ to_upper_case capitals key)
      ("Accepted epoch count "
        ⧺ key
        ⧺ "="
        ⧺ show_count held
        ⧺ " does not match admissions count "
        ⧺ print_count accepted
        ⧺ ".")

-- whether a reference is stated and does not end as that of the epoch
abbrev pub strays : Option String → Bool
strays none = false
strays (some ref) =
    not (is_empty ref) && not (ends_with ref "/epochs/current/accepted-epoch-0001.json")

abbrev pub ref_checks : EpochChainLock → List Check
ref_checks chain_lock =
    red_if (strays chain_lock.accepted_epoch_ref) "CHAINLOCK_ACCEPTED_EPOCH_REF_MISMATCH"
      "Chain lock accepted_epoch_ref does not point to accepted-epoch-0001."
    ∷ []

-- `assertAcceptedEpochRequired`
unfoldable pub assert_accepted_epoch_required :
    (capitals : Char → String) → AcceptedEpoch → EpochChainLock → Admissions → List Finding
assert_accepted_epoch_required capitals epoch chain_lock admissions = findings_of (
    object_checks epoch chain_lock admissions
    ++ stage_checks epoch (ordered_stages chain_lock.chain)
    ++ map (count_check capitals epoch) admissions.count_policy
    ++ ref_checks chain_lock)
