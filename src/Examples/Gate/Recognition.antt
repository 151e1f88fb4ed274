-- ===== src/Examples/Gate/Recognition.antt =====
-- The gate of recognition at an input that passes.
use admissorium.Examples.Gate.{entries, lock}
use admissorium.Prelude.{◌≡◌, refl, true, false, some, [], ◌∷◌}
use admissorium.Js.{get, has_own, Fields, end, str, bool}
use admissorium.Text.{ends_with}
use admissorium.Gate.{green, projection_checks, chain_checks, report, status_of}
use admissorium.Gate.Recognition.{
  RecognitionInput, recognition_object_checks, recognition_bound_checks,
  assert_recognition_object_required,
}

abbrev recognition : Fields
recognition = entries (
    ("object_type", str "RecognitionObject")
    ∷ ("recognition_object_id", str "recognition-object-0001")
    ∷ ("status", str "ACTIVE_TRUTH")
    ∷ ("claim_class", str "recognition-object")
    ∷ ("artifact_id", str "artifact-0005")
    ∷ ("recognition_passed", bool true)
    ∷ ("terminal_recognition", bool true)
    ∷ (
      "verification_result_ref",
      str "https://example.org/verification/current/verification-result-0001.json",
    )
    ∷ ("replay_bundle_ref", str "https://example.org/replay/current/replay-bundle-0001.json")
    ∷ (
      "authority_object_ref",
      str "https://example.org/authorities/current/authority-object-0001.json",
    )
    ∷ (
      "freeze_object_ref",
      str "https://example.org/freeze/objects/current/freeze-object-0001.json",
    )
    ∷ ("accepted_epoch_ref", str "https://example.org/epochs/current/accepted-epoch-0001.json")
    ∷ (
      "chain_lock_ref",
      str "https://example.org/chains/current/minimum-object-chain-lock-0001.json",
    )
    ∷ ("recourse_ready", bool false)
    ∷ ("may_assign_recourse", bool false)
    ∷ ("may_select_remedy", bool false)
    ∷ ("may_close_recourse", bool false)
    ∷ ("may_mutate_verification", bool false)
    ∷ ("may_mutate_authority", bool false)
    ∷ ("may_mutate_accepted_epoch", bool false)
    ∷ ("may_infer_missing_truth", bool false)
    ∷ [])

abbrev pub recognition_input : RecognitionInput
recognition_input = record {
  recognition_object = some recognition;
  recognition_object_index = some (
      entries (
        ("current_recognition_object_ref", str "recognition/current/recognition-object-0001.json")
        ∷ []));
  verification_result =
      some (entries (("verification_result_id", str "verification-result-0001") ∷ []));
  replay_bundle = some (entries (("replay_bundle_id", str "replay-bundle-0001") ∷ []));
  authority_object = some (entries (("authority_object_id", str "authority-object-0001") ∷ []));
  freeze_object = some (entries (("freeze_object_id", str "freeze-object-0001") ∷ []));
  accepted_epoch = some (entries (("accepted_epoch_id", str "accepted-epoch-0001") ∷ []));
  chain_lock = some (lock "recognition-object");
  projection = some end;
}

-- the input is one that passes
recognition_input-green : (assert_recognition_object_required recognition_input).status ≡ green
unfolding assert_recognition_object_required recognition_object_checks recognition_bound_checks
    projection_checks chain_checks report status_of ends_with get has_own
recognition_input-green = refl
