-- ===== src/Gate/Freeze/Laws.antt =====
-- When src/admission/assert-authority-freeze-required.ts passes.
use admissorium.Prelude.{
  String, ◌≡◌, refl, ◌∙◌, sym, ◌↔◌, true, false, List, [], ◌∷◌, ◌++◌, map, any, All, arith,
}
use admissorium.Text.{contains}
use admissorium.Js.{Fields, bool, str, get}
use admissorium.Gate.{Check, fails, is_red}
use admissorium.Gate.Laws.{Pass, differs_iff, is_not_iff, any-is_red}
use admissorium.Gate.Demands.{Demand, refers, sets, Fulfilled, Pass-demands, Pass-each, Pass-both}
use admissorium.Gate.Freeze.{
  FreezeInput, pass, forbidden_rights, freeze_checks, authority_checks, right_check, context_checks,
  freeze_findings, assert_authority_freeze_required,
}

abbrev authority_demands : Fields → List Demand
authority_demands authority =
    refers authority "freeze_object_ref" "/freeze/objects/current/freeze-object-0001.json"
    ∷ refers authority "accepted_epoch_ref" "/epochs/current/accepted-epoch-0001.json"
    ∷ refers authority "chain_lock_ref" "/chains/current/minimum-object-chain-lock-0001.json"
    ∷ sets authority true "may_issue_authority_for_scope" []
    ∷ []

-- The frozen object and the authority are active, the authority refers to the current objects and has
-- its one right and none of the forbidden ones, and the texts of the three objects name them.
pub record IsBoundAuthority (stringify : Fields → String) (input : FreezeInput) : Type 0 where
  pub frozen : get input.freeze_object "status" ≡ str "ACTIVE_TRUTH"
  pub active : get input.authority_object "status" ≡ str "ACTIVE_TRUTH"
  pub refers : Fulfilled (authority_demands input.authority_object)
  pub modest : All (λ key. get input.authority_object key ≡ bool false) forbidden_rights
  pub freeze_named : contains (stringify input.freeze_object) "freeze-object-0001" ≡ true
  pub epoch_named : contains (stringify input.accepted_epoch) "accepted-epoch-0001" ≡ true
  pub lock_named : contains (stringify input.chain_lock) "minimum-object-chain-lock-0001" ≡ true

any-fails_iff : (checks : List Check) → (any fails checks ≡ false) ↔ Pass checks
any-fails_iff [] = ((λ h. tt), (λ h. refl))
any-fails_iff (check ∷ checks) =
    let rest = any-fails_iff checks in
    (
      (λ h. (ground arith, rest.0 (ground arith))),
      (λ h. let here = h.0 in let later = rest.1 h.1 in ground arith),
    )

status_iff :
    (stringify : Fields → String) (input : FreezeInput)
    → ((assert_authority_freeze_required stringify input).status ≡ pass)
      ↔ (any is_red (freeze_findings stringify input) ≡ false)
unfolding assert_authority_freeze_required
status_iff stringify input = ground arith

all_checks : (Fields → String) → FreezeInput → List Check
all_checks stringify input =
    freeze_checks stringify input
    ++ authority_checks input.authority_object
    ++ map (right_check input.authority_object) forbidden_rights
    ++ context_checks stringify input

red_iff :
    (stringify : Fields → String) (input : FreezeInput)
    → (any is_red (freeze_findings stringify input) ≡ false) ↔ Pass (all_checks stringify input)
unfolding freeze_findings all_checks
red_iff stringify input =
    let same = any-is_red (all_checks stringify input) in
    let iff = any-fails_iff (all_checks stringify input) in
    ((λ h. iff.0 (sym same ∙ h)), (λ h. same ∙ iff.1 h))

-- The gate passes exactly if the frozen object and the authority object are active, the authority
-- refers to the current frozen object, epoch and chain lock, may issue authority for its scope and has
-- none of the forbidden rights, and the texts of the frozen object, of the epoch and of the chain lock
-- hold their names.
pub assert_authority_freeze_required-pass_iff :
    (stringify : Fields → String) (input : FreezeInput)
    → ((assert_authority_freeze_required stringify input).status ≡ pass)
      ↔ IsBoundAuthority stringify input
unfolding all_checks
assert_authority_freeze_required-pass_iff stringify input =
    let authority = input.authority_object in
    let a = freeze_checks stringify input in
    let b = authority_checks authority in
    let c = map (right_check authority) forbidden_rights in
    let d = context_checks stringify input in
    let frozen = differs_iff (get input.freeze_object "status") "ACTIVE_TRUTH" in
    let active = differs_iff (get authority "status") "ACTIVE_TRUTH" in
    let first : Pass a ↔ (
        (get input.freeze_object "status" ≡ str "ACTIVE_TRUTH")
        × (get authority "status" ≡ str "ACTIVE_TRUTH")
        × (contains (stringify input.freeze_object) "freeze-object-0001" ≡ true)) =
      (
        (λ h. let (f, (g, (n, _))) = h in (frozen.0 f, active.0 g, ground arith)),
        (λ h. let (f, g, n) = h in (frozen.1 f, (active.1 g, (ground arith, tt)))),
      ) in
    let last : Pass d ↔ (
        (contains (stringify input.accepted_epoch) "accepted-epoch-0001" ≡ true)
        × (contains (stringify input.chain_lock) "minimum-object-chain-lock-0001" ≡ true)) =
      (
        (λ h. let (e, (l, _)) = h in (ground arith, ground arith)),
        (λ h. let (e, l) = h in (ground arith, (ground arith, tt))),
      ) in
    let refer = Pass-demands b (authority_demands authority) refl in
    let modest =
      Pass-each (right_check authority) (λ key. get authority key ≡ bool false)
        (λ key. is_not_iff (get authority key) false) forbidden_rights in
    let whole =
      Pass-both (a ++ b ++ c) d (Pass-both (a ++ b) c (Pass-both a b first refer) modest) last in
    let status = status_iff stringify input in
    let reds = red_iff stringify input in
    (
      (λ h.
          let ((((f, g, n), r), m), (e, l)) = whole.0 (reds.0 (status.0 h)) in
          record {
            frozen = f;
            active = g;
            refers = r;
            modest = m;
            freeze_named = n;
            epoch_named = e;
            lock_named = l;
          }),
      (λ s. status.1 (
          reds.1 (
            whole.1 (
              (((s.frozen, s.active, s.freeze_named), s.refers), s.modest),
              (s.epoch_named, s.lock_named),
            )))),
    )
