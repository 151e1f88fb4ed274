-- ===== src/Examples/Gate/Freeze.antt =====
-- The gate of authority and freeze at objects that pass.
use admissorium.Examples.Gate.{entries}
use admissorium.Prelude.{String, ◌≡◌, refl, ◌↔◌, true, false, [], ◌∷◌}
use admissorium.Text.{contains, ends_with}
use admissorium.Js.{Fields, end, field, str, bool, get}
use admissorium.Gate.Freeze.{FreezeInput, pass, freeze_findings, assert_authority_freeze_required}
use admissorium.Gate.Freeze.Laws.{IsBoundAuthority, assert_authority_freeze_required-pass_iff}

-- the text of an object's first entry
abbrev first_text : Fields → String
first_text end = ""
first_text (field key (str s) rest) = s
first_text _ = ""

abbrev freeze_input : FreezeInput
freeze_input = record {
  freeze_object = entries (("id", str "freeze-object-0001") ∷ ("status", str "ACTIVE_TRUTH") ∷ []);
  authority_object = entries (
      ("status", str "ACTIVE_TRUTH")
      ∷ ("freeze_object_ref", str "a/freeze/objects/current/freeze-object-0001.json")
      ∷ ("accepted_epoch_ref", str "a/epochs/current/accepted-epoch-0001.json")
      ∷ ("chain_lock_ref", str "a/chains/current/minimum-object-chain-lock-0001.json")
      ∷ ("may_issue_authority_for_scope", bool true)
      ∷ ("may_mutate_law", bool false)
      ∷ ("may_mutate_accepted_state", bool false)
      ∷ ("may_mutate_freeze_object", bool false)
      ∷ ("may_infer_missing_truth", bool false)
      ∷ []);
  accepted_epoch = entries (("id", str "accepted-epoch-0001") ∷ []);
  chain_lock = entries (("id", str "minimum-object-chain-lock-0001") ∷ []);
}

assert_authority_freeze_required-pass_iff_example :
    ((assert_authority_freeze_required first_text freeze_input).status ≡ pass)
    ↔ IsBoundAuthority first_text freeze_input
assert_authority_freeze_required-pass_iff_example =
    assert_authority_freeze_required-pass_iff first_text freeze_input

-- and they pass
freeze_input-pass : (assert_authority_freeze_required first_text freeze_input).status ≡ pass
unfolding assert_authority_freeze_required freeze_findings contains ends_with get
freeze_input-pass = refl
