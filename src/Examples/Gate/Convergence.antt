-- ===== src/Examples/Gate/Convergence.antt =====
-- The checks of the epoch, of the chain lock and of the counts at objects that agree.
use admissorium.Examples.Gate.ClaimClass.{links, links-Separates}
use admissorium.Prelude.{ℕ, suc, Char, String, ◌≡◌, refl, ◌↔◌, some, List, [], ◌∷◌, All, length}
use admissorium.Text.{ends_with, to_upper_case, contains, is_blank}
use admissorium.Sorting.{sort_by}
use admissorium.Gate.ClaimClass.{ChainLink, ChainLock, same_order}
use admissorium.Gate.ClaimClass.Laws.{Arranges}
use admissorium.Gate.Epoch.{
  AcceptedEpoch, EpochChainLock, Admissions, count_of, ordered_stages,
  assert_accepted_epoch_required,
}
use admissorium.Gate.Epoch.Laws.{AreCurrent, RefersToEpoch, assert_accepted_epoch_required-nil_iff}
use admissorium.Gate.ChainLock.{
  ProjectionChain, expected_order, stage_count_checks, ref_checks,
  assert_chainlock_projection_convergence,
}
use admissorium.Gate.ChainLock.Laws.{
  numbered, named_stages, IsPublished, Counts, ShowsLocked,
  assert_chainlock_projection_convergence-nil_iff,
}
use admissorium.Gate.Counts.{
  ProjectionCounts, speaks_of_repositories, has_repos_live, assert_admission_count_convergence,
}
use admissorium.Gate.Counts.Laws.{Agrees, Collapses, assert_admission_count_convergence-nil_iff}

abbrev plain : Char → String
plain c = String.◌∷◌ c ""

abbrev policy : List (String × ℕ)
policy = ("governed_repository_count", 35) ∷ ("public_repository_count", 33) ∷ []

abbrev epoch : AcceptedEpoch
epoch = record {
  object_type = "AcceptedEpoch";
  accepted_epoch_id = "accepted-epoch-0001";
  status = "ACTIVE_TRUTH";
  epoch_stage_count = 2;
  accepted_claim_classes = "recognition" ∷ "recourse" ∷ [];
  accepted_counts = policy;
}

abbrev epoch_lock : EpochChainLock
epoch_lock = record {
  object_type = "MinimumObjectChainLock";
  status = "ACTIVE_TRUTH";
  accepted_epoch_ref = some "https://example.org/epochs/current/accepted-epoch-0001.json";
  chain = links;
}

abbrev admissions : Admissions
admissions = record { status = "ACTIVE_TRUTH"; count_policy = policy }

assert_accepted_epoch_required-nil_iff_example :
    (assert_accepted_epoch_required plain epoch epoch_lock admissions ≡ []) ↔ (
      AreCurrent epoch epoch_lock admissions
      × (2 ≡ length epoch.accepted_claim_classes)
      × Arranges (λ x. x.stage) (λ x. x.claim_class) links epoch.accepted_claim_classes
      × All (λ (count : String × ℕ). count_of policy count.0 ≡ some count.1) policy
      × RefersToEpoch epoch_lock.accepted_epoch_ref)
assert_accepted_epoch_required-nil_iff_example =
    assert_accepted_epoch_required-nil_iff plain epoch epoch_lock admissions links-Separates

epoch-accepted : assert_accepted_epoch_required plain epoch epoch_lock admissions ≡ []
unfolding assert_accepted_epoch_required ordered_stages same_order sort_by ends_with
epoch-accepted = refl

-- the chain of these classes, numbered from one more than the number
abbrev chain_from : ℕ → List String → List ChainLink
chain_from n [] = []
chain_from n (class ∷ classes) =
    record {
      stage = suc n;
      claim_class = class;
      owner = "Verifrax";
      object_ref = "https://github.com/Verifrax/VERIFRAX";
      status = "ACTIVE_TRUTH";
    }
    ∷ chain_from (suc n) classes

abbrev chain_lock : ChainLock
chain_lock = record {
  object_type = "MinimumObjectChainLock";
  status = "ACTIVE_TRUTH";
  chain = chain_from 0 expected_order;
}

abbrev projection : ProjectionChain
projection = record {
  chain_stage_count = some 9;
  chain_object_refs = some ("https://github.com/Verifrax/VERIFRAX" ∷ []);
}

assert_chainlock_projection_convergence-nil_iff_example :
    (assert_chainlock_projection_convergence chain_lock projection ≡ []) ↔ (
      (chain_lock.object_type ≡ "MinimumObjectChainLock")
      × (chain_lock.status ≡ "ACTIVE_TRUTH")
      × (named_stages chain_lock.chain ≡ numbered 0 expected_order)
      × All IsPublished chain_lock.chain
      × Counts (some 9) chain_lock
      × ShowsLocked projection.chain_object_refs chain_lock)
assert_chainlock_projection_convergence-nil_iff_example =
    assert_chainlock_projection_convergence-nil_iff chain_lock projection

chain_lock-converges : assert_chainlock_projection_convergence chain_lock projection ≡ []
unfolding assert_chainlock_projection_convergence stage_count_checks ref_checks
chain_lock-converges = refl

-- a projection whose label takes the public repositories for all
abbrev collapsing : ProjectionCounts
collapsing = record { counts = ("public_repository_count", 33) ∷ []; label = some "33 Repos  LIVE" }

assert_admission_count_convergence-nil_iff_example :
    (assert_admission_count_convergence plain plain admissions collapsing ≡ []) ↔ (
      (admissions.status ≡ "ACTIVE_TRUTH")
      × All (λ (entry : String × ℕ). Agrees (count_of collapsing.counts entry.0) entry.1) policy
      × ¬ Collapses plain admissions collapsing)
assert_admission_count_convergence-nil_iff_example =
    assert_admission_count_convergence-nil_iff plain plain admissions collapsing

collapsing-found : length (assert_admission_count_convergence plain plain admissions collapsing) ≡ 1
unfolding assert_admission_count_convergence speaks_of_repositories has_repos_live to_upper_case
    contains is_blank
collapsing-found = refl
