-- ===== src/Gate/ChainLock.antt =====
-- src/admission/assert-chainlock-projection-convergence.ts: the chain lock has the nine stages in order,
-- and a projection shows no other. The severities RED and YELLOW are the statuses red and yellow of
-- Gate; stages and counts are natural numbers.
pub mod Laws
use admissorium.Prelude.{
  ℕ, suc, ◌+◌, String, ◌==◌, Bool, true, false, not, ◌||◌, Option, none, some, List, [], ◌∷◌, ◌++◌,
  map, length, nat_eq, includes, starts_with,
}
use admissorium.Text.{◌⧺◌, print_count}
use admissorium.Gate.{Finding, Check, red_if, findings_of}
use admissorium.Gate.ClaimClass.{ChainLink, ChainLock}

pub record ProjectionChain : Type 0 where
  pub chain_stage_count : Option ℕ
  pub chain_object_refs : Option (List String)

abbrev pub expected_order : List String
expected_order =
    "law-version" ∷ "freeze-object" ∷ "accepted-epoch" ∷ "authority-object" ∷ "execution-receipt"
    ∷ "verification-result" ∷ "recognition-object" ∷ "recourse-object" ∷ "continuity-transfer" ∷ []

abbrev pub lock_checks : ChainLock → List Check
lock_checks chain_lock =
    red_if (not (chain_lock.object_type == "MinimumObjectChainLock")) "CHAINLOCK_WRONG_OBJECT_TYPE"
      "Chain lock object_type must be MinimumObjectChainLock."
    ∷ red_if (not (chain_lock.status == "ACTIVE_TRUTH")) "CHAINLOCK_NOT_ACTIVE_TRUTH"
        "Chain lock must be ACTIVE_TRUTH."
    ∷ red_if (not (nat_eq (length chain_lock.chain) (length expected_order)))
        "CHAINLOCK_STAGE_COUNT_INVALID"
        ("Chain lock stage count "
          ⧺ print_count (length chain_lock.chain)
          ⧺ " does not match expected "
          ⧺ print_count (length expected_order)
          ⧺ ".")
    ∷ []

abbrev order_check : Bool → ℕ → String → Check
order_check mismatch index expected =
    red_if mismatch "CHAINLOCK_ORDER_MISMATCH"
      ("Chain lock stage " ⧺ print_count (suc index) ⧺ " must be " ⧺ expected ⧺ ".")

-- the stages that are expected from an index on, beside the links of the chain from there
abbrev pub order_checks : ℕ → List ChainLink → List String → List Check
order_checks index chain [] = []
order_checks index [] (expected ∷ rest) =
    order_check true index expected ∷ order_checks (suc index) [] rest
order_checks index (actual ∷ chain) (expected ∷ rest) =
    order_check (not (actual.claim_class == expected) || not (nat_eq actual.stage (suc index)))
      index expected
    ∷ order_checks (suc index) chain rest

abbrev pub link_checks : List ChainLink → List Check
link_checks [] = []
link_checks (stage ∷ chain) =
    red_if (not (stage.status == "ACTIVE_TRUTH")) "CHAINLOCK_STAGE_NOT_ACTIVE_TRUTH"
      (stage.claim_class ⧺ " is " ⧺ stage.status ⧺ ", expected ACTIVE_TRUTH.")
    ∷ red_if (not (starts_with stage.object_ref "https://github.com/Verifrax/"))
        "CHAINLOCK_OBJECT_REF_NOT_PUBLIC_GITHUB"
        (stage.claim_class ⧺ " object_ref must resolve to a public Verifrax GitHub object.")
    ∷ link_checks chain

unfoldable pub stage_count_checks : Option ℕ → ChainLock → List Check
stage_count_checks none chain_lock = []
stage_count_checks (some count) chain_lock =
    red_if (not (nat_eq count (length chain_lock.chain))) "PROJECTION_CHAIN_STAGE_COUNT_MISMATCH" (
      "Projection chain stage count "
      ⧺ print_count count
      ⧺ " does not match chain lock "
      ⧺ print_count (length chain_lock.chain)
      ⧺ ".")
    ∷ []

abbrev pub locked_refs : ChainLock → List String
locked_refs chain_lock = map (λ stage. stage.object_ref) chain_lock.chain

abbrev pub ref_check : ChainLock → String → Check
ref_check chain_lock ref =
    red_if (not (includes (locked_refs chain_lock) ref)) "PROJECTION_CHAIN_OBJECT_SUBSTITUTION"
      ("Projection references non-chainlocked object " ⧺ ref ⧺ ".")

unfoldable pub ref_checks : Option (List String) → ChainLock → List Check
ref_checks none chain_lock = []
ref_checks (some refs) chain_lock = map (ref_check chain_lock) refs

-- `assertChainlockProjectionConvergence`
unfoldable pub assert_chainlock_projection_convergence : ChainLock → ProjectionChain → List Finding
assert_chainlock_projection_convergence chain_lock projection = findings_of (
    lock_checks chain_lock
    ++ order_checks 0 chain_lock.chain expected_order
    ++ link_checks chain_lock.chain
    ++ stage_count_checks projection.chain_stage_count chain_lock
    ++ ref_checks projection.chain_object_refs chain_lock)
