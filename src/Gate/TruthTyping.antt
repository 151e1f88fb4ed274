-- ===== src/Gate/TruthTyping.antt =====
-- src/admission/assert-active-historical-truth-typing-required.ts: what the typing of active and
-- historical truth must declare, and which surfaces may not pass for truth.
pub mod Families
pub mod Laws
use admissorium.Prelude.{
  String, Bool, true, false, not, ◌||◌, Option, none, some, List, [], ◌∷◌, ◌++◌, map, length,
  nat_eq, includes,
}
use admissorium.Text.{◌⧺◌}
use admissorium.Js.{Value, Fields, str, arr, obj, items, get, is_str, is_bool}
use admissorium.Grouping.{unique}
use admissorium.Gate.{Check, red_if, Report, report, differs, is_not, missing_or, present_and}
use admissorium.Gate.Cognition.{string_array}

pub record TruthTypingInput : Type 0 where
  pub truth_typing : Option Fields
  pub truth_typing_index : Option Fields
  pub projection : Option Fields
  pub status_surface : Option Fields
  pub historical_snapshot : Option Fields

abbrev pub required_categories : List String
required_categories =
    "ACTIVE_LAW" ∷ "ACTIVE_TRUTH" ∷ "ACTIVE_INDEX" ∷ "EVIDENCE_OBJECT" ∷ "HISTORICAL_SNAPSHOT"
    ∷ "DERIVED_PROJECTION" ∷ "STATUS_SURFACE_NOT_TRUTH_SOURCE" ∷ "QUARANTINED" ∷ "TRANSITIONAL" ∷ []

abbrev pub required_families : List String
required_families =
    "claim-class-admission" ∷ "accepted-claim-class-state" ∷ "chain-lock" ∷ "accepted-epoch"
    ∷ "freeze-object" ∷ "authority-object" ∷ "replay-bundle" ∷ "verification-result"
    ∷ "recognition-object" ∷ "recourse-object" ∷ "continuity-transfer" ∷ []

abbrev pub text_of : Value → Option String
text_of (str s) = some s
text_of _ = none

-- the object family of an entry; an array has none
abbrev pub object_family : Value → Option String
object_family (obj entry) = text_of (get entry "object_family")
object_family _ = none

abbrev pub kept : Option String → List String → List String
kept none rest = rest
kept (some s) rest = s ∷ rest

-- `.map(...).filter(...)`
abbrev pub families : List Value → List String
families [] = []
families (entry ∷ entries) = kept (object_family entry) (families entries)

abbrev pub current_truth_families : Value → List String
current_truth_families (arr entries) = families (items entries)
current_truth_families _ = []

unfoldable pub has_duplicate : List String → Bool
has_duplicate values = not (nat_eq (length (unique values)) (length values))

abbrev pub claims_truth : Fields → Bool
claims_truth value =
    is_str (get value "status") "ACTIVE_TRUTH"
    || is_str (get value "truth_kind") "ACTIVE_TRUTH"
    || is_str (get value "truth_status") "ACTIVE_TRUTH"
    || is_bool (get value "is_truth_source") true
    || is_bool (get value "truth_source") true

unfoldable pub is_active_truth_claim : Option Fields → Bool
is_active_truth_claim value = present_and value claims_truth

abbrev pub identity_checks : Fields → List Check
identity_checks typing =
    red_if (differs (get typing "object_type") "ActiveHistoricalTruthTyping")
      "TRUTH_TYPING_WRONG_OBJECT_TYPE"
      "truth typing object_type must be ActiveHistoricalTruthTyping."
    ∷ red_if (differs (get typing "typing_id") "active-historical-truth-typing-0001")
        "TRUTH_TYPING_SUBSTITUTION" "truth typing id must be active-historical-truth-typing-0001."
    ∷ red_if (differs (get typing "status") "ACTIVE_TRUTH") "TRUTH_TYPING_NOT_ACTIVE_TRUTH"
        "truth typing object must be ACTIVE_TRUTH."
    ∷ []

abbrev pub category_check : Fields → String → Check
category_check typing category =
    red_if (not (includes (string_array (get typing "truth_categories")) category))
      "TRUTH_CATEGORY_MISSING" ("truth typing must include " ⧺ category ⧺ ".")

abbrev pub family_check : Fields → String → Check
family_check typing family =
    red_if (not (includes (current_truth_families (get typing "current_truth_refs")) family))
      "CURRENT_TRUTH_FAMILY_MISSING"
      ("truth typing must bind current object family " ⧺ family ⧺ ".")

abbrev pub duplicate_checks : Fields → List Check
duplicate_checks typing =
    red_if (has_duplicate (current_truth_families (get typing "current_truth_refs")))
      "DUPLICATE_ACTIVE_TRUTH_FAMILY"
      "truth typing must preserve one active truth per object family."
    ∷ []

abbrev pub policy_checks : Fields → List Check
policy_checks typing =
    red_if (differs (get typing "current_truth_policy") "ONE_ACTIVE_TRUTH_PER_OBJECT_FAMILY")
      "CURRENT_TRUTH_POLICY_MISSING" "truth typing must declare one active truth per object family."
    ∷ red_if (differs (get typing "historical_material_policy") "MUST_SELF_IDENTIFY_AS_HISTORICAL")
        "HISTORICAL_TYPING_POLICY_MISSING" "historical material must self-identify as historical."
    ∷ red_if (differs (get typing "projection_policy") "PROJECTIONS_NEVER_ACTIVE_TRUTH")
        "PROJECTION_TYPING_POLICY_MISSING" "projections must never type themselves as active truth."
    ∷ red_if (differs (get typing "status_surface_policy") "STATUS_SURFACES_NOT_TRUTH_SOURCE")
        "STATUS_SURFACE_TYPING_POLICY_MISSING" "status surfaces must be typed as non-truth-source."
    ∷ red_if
        (is_not (get typing "may_promote_projection_to_truth") false
          || is_not (get typing "may_promote_status_to_truth") false
          || is_not (get typing "may_promote_historical_snapshot_to_current") false
          || is_not (get typing "may_infer_missing_truth") false)
        "TRUTH_TYPING_PROMOTION_OVERCLAIM"
        "typing object may not promote projections/status/historical snapshots or infer missing truth."
    ∷ []

unfoldable pub truth_typing_checks : Option Fields → List Check
truth_typing_checks none =
    red_if true "ACTIVE_HISTORICAL_TRUTH_TYPING_MISSING"
      "active-historical-truth-typing-0001 is absent."
    ∷ []
truth_typing_checks (some typing) =
    identity_checks typing
    ++ map (category_check typing) required_categories
    ++ map (family_check typing) required_families
    ++ duplicate_checks typing
    ++ policy_checks typing

unfoldable pub truth_surface_checks : TruthTypingInput → List Check
truth_surface_checks input =
    red_if
      (missing_or input.truth_typing_index (λ index.
        differs (get index "current_truth_typing_ref")
          "truth-typing/current/active-historical-truth-typing-0001.json"))
      "TRUTH_TYPING_INDEX_DRIFT"
      "truth typing index must point to active-historical-truth-typing-0001."
    ∷ red_if (is_active_truth_claim input.projection) "PROJECTION_CLAIMS_ACTIVE_TRUTH"
        "projection surface may not claim ACTIVE_TRUTH or truth-source status."
    ∷ red_if (is_active_truth_claim input.status_surface) "STATUS_SURFACE_CLAIMS_TRUTH_SOURCE"
        "status surface may not claim ACTIVE_TRUTH or truth-source status."
    ∷ []

unfoldable pub historical_checks : Option Fields → List Check
historical_checks none = []
historical_checks (some snapshot) =
    red_if
      (is_str (get snapshot "status") "ACTIVE_TRUTH"
        || is_str (get snapshot "truth_kind") "ACTIVE_TRUTH")
      "HISTORICAL_SNAPSHOT_CLAIMS_ACTIVE_TRUTH"
      "historical snapshot may not impersonate active truth."
    ∷ red_if (differs (get snapshot "historical_status") "HISTORICAL_SNAPSHOT")
        "HISTORICAL_SNAPSHOT_NOT_TYPED"
        "historical snapshot must self-identify as HISTORICAL_SNAPSHOT."
    ∷ []

-- `assertActiveHistoricalTruthTypingRequired`
unfoldable pub assert_active_historical_truth_typing_required : TruthTypingInput → Report
assert_active_historical_truth_typing_required input =
    report "ACTIVE_HISTORICAL_TRUTH_TYPING_REQUIRED" (
      truth_typing_checks input.truth_typing
      ++ truth_surface_checks input
      ++ historical_checks input.historical_snapshot)
