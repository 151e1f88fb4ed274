-- ===== src/Gate/Epoch/Laws.antt =====
-- When src/admission/assert-accepted-epoch-required.ts finds nothing.
use admissorium.Prelude.{
  ℕ, Char, String, ◌≡◌, refl, sym, ap, ◌↔◌, ◌⊎◌, true, false, not, Option, none, some, List, [],
  ◌++◌, map, length, All, arith,
}
use admissorium.Text.{is_empty, ends_with}
use admissorium.Sorting.Unique.{Separates}
use admissorium.Gate.Laws.{Pass, findings_of-nil_iff}
use admissorium.Gate.Demands.{Pass-both, Pass-each}
use admissorium.Gate.ClaimClass.Laws.{same_order_iff, not_says_iff, Arranges, Arranges-iff}
use admissorium.Gate.Epoch.{
  AcceptedEpoch, EpochChainLock, Admissions, count_of, is_count, ordered_stages, object_checks,
  stage_checks, count_check, strays, ref_checks, assert_accepted_epoch_required,
}

-- The three objects are of the right type, and active.
pub record AreCurrent (epoch : AcceptedEpoch) (chain_lock : EpochChainLock)
    (admissions : Admissions) : Type 0 where
  pub epoch_type : epoch.object_type ≡ "AcceptedEpoch"
  pub epoch_id : epoch.accepted_epoch_id ≡ "accepted-epoch-0001"
  pub epoch_status : epoch.status ≡ "ACTIVE_TRUTH"
  pub lock_type : chain_lock.object_type ≡ "MinimumObjectChainLock"
  pub lock_status : chain_lock.status ≡ "ACTIVE_TRUTH"
  pub admissions_status : admissions.status ≡ "ACTIVE_TRUTH"

-- A reference to the epoch, if one is stated.
abbrev pub RefersToEpoch : Option String → Type 0
RefersToEpoch none = Unit
RefersToEpoch (some ref) =
    (is_empty ref ≡ true) ⊎ (ends_with ref "/epochs/current/accepted-epoch-0001.json" ≡ true)

object_checks_iff :
    (epoch : AcceptedEpoch) (chain_lock : EpochChainLock) (admissions : Admissions)
    → Pass (object_checks epoch chain_lock admissions) ↔ AreCurrent epoch chain_lock admissions
object_checks_iff epoch chain_lock admissions =
    let a = not_says_iff epoch.object_type "AcceptedEpoch" in
    let b = not_says_iff epoch.accepted_epoch_id "accepted-epoch-0001" in
    let c = not_says_iff epoch.status "ACTIVE_TRUTH" in
    let d = not_says_iff chain_lock.object_type "MinimumObjectChainLock" in
    let e = not_says_iff chain_lock.status "ACTIVE_TRUTH" in
    let f = not_says_iff admissions.status "ACTIVE_TRUTH" in
    (
      (λ h.
          let (ha, (hb, (hc, (hd, (he, (hf, _)))))) = h in
          record {
            epoch_type = a.0 ha;
            epoch_id = b.0 hb;
            epoch_status = c.0 hc;
            lock_type = d.0 hd;
            lock_status = e.0 he;
            admissions_status = f.0 hf;
          }),
      (λ r. (
        a.1 r.epoch_type,
        (
          b.1 r.epoch_id,
          (
            c.1 r.epoch_status,
            (d.1 r.lock_type, (e.1 r.lock_status, (f.1 r.admissions_status, tt))),
          ),
        ),
      )),
    )

stage_checks_iff :
    (epoch : AcceptedEpoch) (chain_classes : List String)
    → Pass (stage_checks epoch chain_classes) ↔ (
        (epoch.epoch_stage_count ≡ length epoch.accepted_claim_classes)
        × (epoch.accepted_claim_classes ≡ chain_classes))
stage_checks_iff epoch chain_classes =
    let order = same_order_iff epoch.accepted_claim_classes chain_classes in
    (
      (λ h.
          let same = order.0 h.1.0 in
          let counted = h.0 in
          let long : length epoch.accepted_claim_classes ≡ length chain_classes = ap length same in
          (ground arith, same)),
      (λ h.
          let counted = h.0 in
          let long : length epoch.accepted_claim_classes ≡ length chain_classes = ap length h.1 in
          (ground arith, (order.1 h.1, tt))),
    )

is_count_iff : (o : Option ℕ) (n : ℕ) → (not (is_count o n) ≡ false) ↔ (o ≡ some n)
is_count_iff none n = ground arith
is_count_iff (some m) n = ground arith

ref_checks_iff : (o : Option String) → (strays o ≡ false) ↔ RefersToEpoch o
ref_checks_iff none = ((λ h. tt), (λ h. refl))
ref_checks_iff (some ref) = ground arith

-- If no two links of the chain have one stage, then nothing is found exactly if the three objects are
-- of the right type and active, the accepted classes are those of the chain in the order of the stages,
-- as many as the epoch says, every count of the admissions is that of the epoch, and the chain lock's
-- reference to the epoch, if stated, ends as it must.
pub assert_accepted_epoch_required-nil_iff :
    (capitals : Char → String) (epoch : AcceptedEpoch) (chain_lock : EpochChainLock)
    (admissions : Admissions)
    → Separates (λ x. x.stage) chain_lock.chain
    → (assert_accepted_epoch_required capitals epoch chain_lock admissions ≡ []) ↔ (
        AreCurrent epoch chain_lock admissions
        × (epoch.epoch_stage_count ≡ length epoch.accepted_claim_classes)
        × Arranges (λ x. x.stage) (λ x. x.claim_class) chain_lock.chain epoch.accepted_claim_classes
        × All
            (λ (count : String × ℕ). count_of epoch.accepted_counts count.0 ≡ some count.1)
            admissions.count_policy
        × RefersToEpoch chain_lock.accepted_epoch_ref)
unfolding assert_accepted_epoch_required ordered_stages
assert_accepted_epoch_required-nil_iff capitals epoch chain_lock admissions stages =
    let a = object_checks epoch chain_lock admissions in
    let b = stage_checks epoch (ordered_stages chain_lock.chain) in
    let c = map (count_check capitals epoch) admissions.count_policy in
    let d = ref_checks chain_lock in
    let order =
      Arranges-iff (λ x. x.stage) (λ x. x.claim_class) chain_lock.chain epoch.accepted_claim_classes
        stages in
    let two =
      Pass-both a b (object_checks_iff epoch chain_lock admissions)
        (stage_checks_iff epoch (ordered_stages chain_lock.chain)) in
    let counts =
      Pass-each (count_check capitals epoch)
        (λ count. count_of epoch.accepted_counts count.0 ≡ some count.1)
        (λ count. is_count_iff (count_of epoch.accepted_counts count.0) count.1)
        admissions.count_policy in
    let ref = ref_checks_iff chain_lock.accepted_epoch_ref in
    let three = Pass-both (a ++ b) c two counts in
    let nil = findings_of-nil_iff (a ++ b ++ c ++ d) in
    let whole = Pass-both (a ++ b ++ c) d three ((λ h. ref.0 h.0), (λ h. (ref.1 h, tt))) in
    (
      (λ h.
          let (((current, (count, same)), counted), refers) = whole.0 (nil.0 h) in
          (current, count, order.0 (sym same), counted, refers)),
      (λ h.
          let (current, count, arranged, counted, refers) = h in
          nil.1 (whole.1 (((current, (count, sym (order.1 arranged))), counted), refers))),
    )
