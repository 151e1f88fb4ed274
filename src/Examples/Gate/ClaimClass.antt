-- ===== src/Examples/Gate/ClaimClass.antt =====
-- The gate of claim classes at two classes that are listed out of order.
use mathlib.Core.HLevel.{hedberg}
use Prim.{IsSet, Dec}
use native.Mathlib.Nat.{ℕ_set}
use admissorium.Prelude.{
  String, ◌==◌, ◌≡◌, ◌↔◌, refl, inl, inr, true, List, [], ◌∷◌, All, Bool-cases, eq_iff, arith,
}
use admissorium.Sorting.{sort_by}
use admissorium.Sorting.Unique.{Separates, IsDistinct-Separates}
use admissorium.Gate.ClaimClass.{
  AdmittedClaimClass, ClaimClassAdmission, AcceptedClaimClassState, ChainLink, ChainLock,
  same_order, ordered_law_classes, ordered_chain_classes, claim_class_checks,
  assert_claim_class_admission_required,
}
use admissorium.Gate.ClaimClass.Laws.{
  AreActive, Arranges, assert_claim_class_admission_required-Arranges_iff,
}

string_set : IsSet String
string_set = hedberg (λ s t. elim (Bool-cases (s == t)) [
  | inl same ↦ Dec.yes ((eq_iff s t).0 same)
  | inr other ↦ Dec.no (λ e. let same = (eq_iff s t).1 e in ground arith)
])

class_set : IsSet AdmittedClaimClass
class_set = hlevel (string_set, ℕ_set)

link_set : IsSet ChainLink
link_set = hlevel (string_set, ℕ_set)

abbrev admitted : List AdmittedClaimClass
admitted =
    record { order = 2; claim_class = "recourse"; owner = "Verifrax"; required = true }
    ∷ record { order = 1; claim_class = "recognition"; owner = "Verifrax"; required = true }
    ∷ []

abbrev pub links : List ChainLink
links =
    record {
      stage = 7;
      claim_class = "recognition";
      owner = "Verifrax";
      object_ref = "a";
      status = "ACTIVE";
    }
    ∷ record {
      stage = 8;
      claim_class = "recourse";
      owner = "Verifrax";
      object_ref = "b";
      status = "ACTIVE";
    }
    ∷ []

abbrev admission : ClaimClassAdmission
admission = record {
  object_type = "ClaimClassAdmission";
  status = "ACTIVE_LAW";
  admitted_claim_classes = admitted;
}

abbrev accepted_state : AcceptedClaimClassState
accepted_state = record {
  object_type = "AcceptedClaimClassState";
  status = "ACTIVE_TRUTH";
  accepted_claim_classes = "recognition" ∷ "recourse" ∷ [];
}

abbrev chain_lock : ChainLock
chain_lock = record {
  object_type = "MinimumObjectChainLock";
  status = "ACTIVE_TRUTH";
  chain = links;
}

admitted-Separates : Separates (λ x. x.order) admitted
admitted-Separates =
    IsDistinct-Separates (λ x. x.order) class_set admitted ((ground arith, tt), (tt, tt))

pub links-Separates : Separates (λ x. x.stage) links
links-Separates = IsDistinct-Separates (λ x. x.stage) link_set links ((ground arith, tt), (tt, tt))

assert_claim_class_admission_required-Arranges_iff_example :
    (assert_claim_class_admission_required admission accepted_state chain_lock ≡ []) ↔ (
      AreActive admission accepted_state chain_lock
      × Arranges (λ x. x.order) (λ x. x.claim_class) admitted ("recognition" ∷ "recourse" ∷ [])
      × Arranges (λ x. x.stage) (λ x. x.claim_class) links ("recognition" ∷ "recourse" ∷ [])
      × All (λ cls. cls.required ≡ true) admitted)
assert_claim_class_admission_required-Arranges_iff_example =
    assert_claim_class_admission_required-Arranges_iff admission accepted_state chain_lock
      admitted-Separates links-Separates

-- and nothing is found there
admission-nil : assert_claim_class_admission_required admission accepted_state chain_lock ≡ []
unfolding assert_claim_class_admission_required claim_class_checks ordered_law_classes
    ordered_chain_classes same_order sort_by
admission-nil = refl
