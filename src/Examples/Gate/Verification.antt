-- ===== src/Examples/Gate/Verification.antt =====
-- The gate of verification at an input that passes.
use admissorium.Examples.Gate.{entries, lock}
use admissorium.Prelude.{◌≡◌, refl, true, false, some, [], ◌∷◌}
use admissorium.Js.{get, has_own, Fields, end, str, bool}
use admissorium.Text.{ends_with}
use admissorium.Gate.{green, projection_checks, chain_checks, report, status_of}
use admissorium.Gate.Verification.{
  VerificationInput, verification_result_checks, verification_bound_checks,
  assert_verification_result_required,
}

abbrev verification : Fields
verification = entries (
    ("object_type", str "VerificationResult")
    ∷ ("verification_result_id", str "verification-result-0001")
    ∷ ("status", str "ACTIVE_TRUTH")
    ∷ ("claim_class", str "verification-result")
    ∷ ("artifact_id", str "artifact-0005")
    ∷ ("verification_passed", bool true)
    ∷ ("replay_bundle_ref", str "https://example.org/replay/current/replay-bundle-0001.json")
    ∷ (
      "authority_object_ref",
      str "https://example.org/authorities/current/authority-object-0001.json",
    )
    ∷ (
      "freeze_object_ref",
      str "https://example.org/freeze/objects/current/freeze-object-0001.json",
    )
    ∷ ("accepted_epoch_ref", str "https://example.org/epochs/current/accepted-epoch-0001.json")
    ∷ (
      "chain_lock_ref",
      str "https://example.org/chains/current/minimum-object-chain-lock-0001.json",
    )
    ∷ ("may_recognize_terminal_truth", bool false)
    ∷ ("may_assign_recourse", bool false)
    ∷ ("may_mutate_authority", bool false)
    ∷ ("may_mutate_accepted_epoch", bool false)
    ∷ ("may_infer_missing_truth", bool false)
    ∷ [])

abbrev pub verification_input : VerificationInput
verification_input = record {
  verification_result = some verification;
  verification_result_index = some (
      entries (
        (
          "current_verification_result_ref",
          str "verification/current/verification-result-0001.json",
        )
        ∷ []));
  replay_bundle = some (entries (("replay_bundle_id", str "replay-bundle-0001") ∷ []));
  authority_object = some (entries (("authority_object_id", str "authority-object-0001") ∷ []));
  freeze_object = some (entries (("freeze_object_id", str "freeze-object-0001") ∷ []));
  accepted_epoch = some (entries (("accepted_epoch_id", str "accepted-epoch-0001") ∷ []));
  chain_lock = some (lock "verification-result");
  projection = some end;
}

-- the input is one that passes
verification_input-green : (assert_verification_result_required verification_input).status ≡ green
unfolding assert_verification_result_required verification_result_checks verification_bound_checks
    projection_checks chain_checks report status_of ends_with get has_own
verification_input-green = refl
