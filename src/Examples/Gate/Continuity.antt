-- ===== src/Examples/Gate/Continuity.antt =====
-- The gate of continuity at an input that passes.
use admissorium.Examples.Gate.{entries, lock}
use admissorium.Prelude.{◌≡◌, refl, true, false, some, [], ◌∷◌}
use admissorium.Js.{get, has_own, Fields, end, str, bool}
use admissorium.Text.{ends_with}
use admissorium.Gate.{green, projection_checks, chain_checks, report, status_of}
use admissorium.Gate.Continuity.{
  ContinuityInput, continuity_transfer_object_checks, continuity_bound_checks,
  assert_continuity_transfer_required,
}

abbrev continuity : Fields
continuity = entries (
    ("object_type", str "ContinuityTransferObject")
    ∷ ("continuity_transfer_id", str "continuity-transfer-0001")
    ∷ ("status", str "ACTIVE_TRUTH")
    ∷ ("claim_class", str "continuity-transfer")
    ∷ (
      "chain_lock_ref",
      str "https://example.org/chains/current/minimum-object-chain-lock-0001.json",
    )
    ∷ ("accepted_epoch_ref", str "https://example.org/epochs/current/accepted-epoch-0001.json")
    ∷ (
      "authority_object_ref",
      str "https://example.org/authorities/current/authority-object-0001.json",
    )
    ∷ (
      "recognition_object_ref",
      str "https://example.org/recognition/current/recognition-object-0001.json",
    )
    ∷ ("recourse_object_ref", str "https://example.org/recourse/current/recourse-object-0001.json")
    ∷ ("recorded_not_narrated", bool true)
    ∷ ("append_only_continuity", bool true)
    ∷ ("historical_chain_reconstructable", bool true)
    ∷ ("requires_public_transfer_record_for_future_custody_change", bool true)
    ∷ ("may_transfer_authority_without_record", bool false)
    ∷ ("may_mutate_authority_object", bool false)
    ∷ ("may_mutate_accepted_epoch", bool false)
    ∷ ("may_mutate_chain_lock", bool false)
    ∷ ("may_mutate_recognition", bool false)
    ∷ ("may_mutate_recourse", bool false)
    ∷ ("may_infer_missing_truth", bool false)
    ∷ [])

abbrev pub continuity_input : ContinuityInput
continuity_input = record {
  continuity_transfer_object = some continuity;
  continuity_transfer_index = some (
      entries (
        (
          "current_continuity_transfer_ref",
          str "governance/continuity/current/continuity-transfer-0001.json",
        )
        ∷ []));
  authority_object = some (entries (("authority_object_id", str "authority-object-0001") ∷ []));
  accepted_epoch = some (entries (("accepted_epoch_id", str "accepted-epoch-0001") ∷ []));
  chain_lock = some (lock "continuity-transfer");
  recognition_object =
      some (entries (("recognition_object_id", str "recognition-object-0001") ∷ []));
  recourse_object = some (entries (("recourse_object_id", str "recourse-object-0001") ∷ []));
  projection = some end;
}

-- the input is one that passes
continuity_input-green : (assert_continuity_transfer_required continuity_input).status ≡ green
unfolding assert_continuity_transfer_required continuity_transfer_object_checks
    continuity_bound_checks projection_checks chain_checks report status_of ends_with get has_own
continuity_input-green = refl
