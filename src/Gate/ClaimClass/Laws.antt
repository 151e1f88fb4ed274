-- ===== src/Gate/ClaimClass/Laws.antt =====
-- When src/admission/assert-claim-class-admission-required.ts finds nothing.
use mathlib.Core.List.{Perm}
use admissorium.Prelude.{
  ℕ, String, ◌==◌, ◌≡◌, refl, sym, ◌∙◌, ap, ap₂, ◌↔◌, true, false, not, List, [], ◌∷◌, ◌++◌, map,
  length, arith, All, eq_iff, eq_refl,
}
use admissorium.Sorting.{sort_by, IsSorted, sort_by-perm, sort_by-IsSorted}
use admissorium.Sorting.Unique.{Separates, sort_by_unique}
use admissorium.Gate.Laws.{Pass, findings_of-nil_iff}
use admissorium.Gate.Demands.{Pass-both, Pass-each}
use admissorium.Gate.ClaimClass.{
  AdmittedClaimClass, ClaimClassAdmission, AcceptedClaimClassState, ChainLock, ordered_law_classes,
  ordered_chain_classes, every_same, same_order, says_checks, order_checks, required_check,
  claim_class_checks, assert_claim_class_admission_required,
}

every_same-eq :
    (left right : List String)
    → length left ≡ length right
    → every_same left right ≡ true
    → left ≡ right
every_same-eq [] [] n h = refl
every_same-eq [] (y ∷ right) n h = absurd (ground arith)
every_same-eq (x ∷ left) [] n h = absurd (ground arith)
every_same-eq (x ∷ left) (y ∷ right) n h =
    let rest = every_same-eq left right (ground arith) (ground arith) in
    ap₂ (λ z zs. z ∷ zs) ((eq_iff x y).0 (ground arith)) rest

every_same_refl : (xs : List String) → every_same xs xs ≡ true
every_same_refl [] = refl
every_same_refl (x ∷ xs) = rw (eq_refl x, every_same_refl xs)

-- Two lists are in the same order exactly if they are equal.
pub same_order_iff :
    (left right : List String) → (not (same_order left right) ≡ false) ↔ (left ≡ right)
unfolding same_order
same_order_iff left right =
    let to = every_same-eq left right in
    let same = every_same_refl left in
    ((λ h. to (ground arith) (ground arith)), (λ e. rw (sym e) (ground arith)))

pub not_says_iff : (s t : String) → (not (s == t) ≡ false) ↔ (s ≡ t)
not_says_iff s t = let h = eq_iff s t in ground (arith, h)

-- The three objects are of the right type, and active.
pub record AreActive (admission : ClaimClassAdmission) (accepted_state : AcceptedClaimClassState)
    (chain_lock : ChainLock) : Type 0 where
  pub admission_type : admission.object_type ≡ "ClaimClassAdmission"
  pub admission_status : admission.status ≡ "ACTIVE_LAW"
  pub state_type : accepted_state.object_type ≡ "AcceptedClaimClassState"
  pub state_status : accepted_state.status ≡ "ACTIVE_TRUTH"
  pub lock_type : chain_lock.object_type ≡ "MinimumObjectChainLock"
  pub lock_status : chain_lock.status ≡ "ACTIVE_TRUTH"

says_checks_iff :
    (admission : ClaimClassAdmission) (accepted_state : AcceptedClaimClassState)
    (chain_lock : ChainLock)
    → Pass (says_checks admission accepted_state chain_lock)
      ↔ AreActive admission accepted_state chain_lock
says_checks_iff admission accepted_state chain_lock =
    let a = not_says_iff admission.object_type "ClaimClassAdmission" in
    let b = not_says_iff admission.status "ACTIVE_LAW" in
    let c = not_says_iff accepted_state.object_type "AcceptedClaimClassState" in
    let d = not_says_iff accepted_state.status "ACTIVE_TRUTH" in
    let e = not_says_iff chain_lock.object_type "MinimumObjectChainLock" in
    let f = not_says_iff chain_lock.status "ACTIVE_TRUTH" in
    (
      (λ h.
          let (ha, (hb, (hc, (hd, (he, (hf, _)))))) = h in
          record {
            admission_type = a.0 ha;
            admission_status = b.0 hb;
            state_type = c.0 hc;
            state_status = d.0 hd;
            lock_type = e.0 he;
            lock_status = f.0 hf;
          }),
      (λ h. (
        a.1 h.admission_type,
        (
          b.1 h.admission_status,
          (c.1 h.state_type, (d.1 h.state_status, (e.1 h.lock_type, (f.1 h.lock_status, tt)))),
        ),
      )),
    )

order_checks_iff :
    (law accepted chain : List String)
    → Pass (order_checks law accepted chain) ↔ ((law ≡ accepted) × (accepted ≡ chain))
order_checks_iff law accepted chain =
    let a = same_order_iff law accepted in
    let b = same_order_iff accepted chain in
    ((λ h. (a.0 h.0, b.0 h.1.0)), (λ h. (a.1 h.0, (b.1 h.1, tt))))

required_check_iff : (cls : AdmittedClaimClass) → (not cls.required ≡ false) ↔ (cls.required ≡ true)
required_check_iff cls = ground arith

-- What the code compares.
assert_claim_class_admission_required-nil_iff :
    (admission : ClaimClassAdmission) (accepted_state : AcceptedClaimClassState)
    (chain_lock : ChainLock)
    → (assert_claim_class_admission_required admission accepted_state chain_lock ≡ []) ↔ (
        (AreActive admission accepted_state chain_lock
          × ((ordered_law_classes admission ≡ accepted_state.accepted_claim_classes)
              × (accepted_state.accepted_claim_classes ≡ ordered_chain_classes chain_lock)))
        × All (λ cls. cls.required ≡ true) admission.admitted_claim_classes)
unfolding assert_claim_class_admission_required claim_class_checks
assert_claim_class_admission_required-nil_iff admission accepted_state chain_lock =
    let a = says_checks admission accepted_state chain_lock in
    let b =
      order_checks (ordered_law_classes admission) accepted_state.accepted_claim_classes
        (ordered_chain_classes chain_lock) in
    let c = map required_check admission.admitted_claim_classes in
    let active = says_checks_iff admission accepted_state chain_lock in
    let order =
      order_checks_iff (ordered_law_classes admission) accepted_state.accepted_claim_classes
        (ordered_chain_classes chain_lock) in
    let required =
      Pass-each required_check (λ cls. cls.required ≡ true) required_check_iff
        admission.admitted_claim_classes in
    let whole = Pass-both (a ++ b) c (Pass-both a b active order) required in
    let nil = findings_of-nil_iff (a ++ b ++ c) in
    ((λ h. whole.0 (nil.0 h)), (λ h. nil.1 (whole.1 h)))

-- The names are those of the elements, put in the order of their keys.
abbrev pub Arranges : {A : Type 0} (key : A → ℕ) → (A → String) → List A → List String → Type 0
Arranges {A} key name elements names =
    (arranged : List A) × Perm arranged elements
    × IsSorted key arranged
    × (map name arranged ≡ names)

pub Arranges-iff :
    {A : Type 0} (key : A → ℕ) (name : A → String) (elements : List A) (names : List String)
    → Separates key elements
    → (map name (sort_by key elements) ≡ names) ↔ Arranges key name elements names
Arranges-iff key name elements names separate = (
  (λ e. (sort_by key elements, sort_by-perm key elements, sort_by-IsSorted key elements, e)),
  (λ h.
      let (arranged, perm, in_order, e) = h in
      ap (map name) (sort_by_unique key elements arranged separate perm in_order) ∙ e),
)

-- If no two admitted classes have one order and no two links of the chain one stage, then nothing is
-- found exactly if the three objects are of the right type and active, the accepted classes are those
-- of the law in the order of the law and those of the chain in the order of the stages, and every
-- admitted class is required.
pub assert_claim_class_admission_required-Arranges_iff :
    (admission : ClaimClassAdmission) (accepted_state : AcceptedClaimClassState)
    (chain_lock : ChainLock)
    → Separates (λ x. x.order) admission.admitted_claim_classes
    → Separates (λ x. x.stage) chain_lock.chain
    → (assert_claim_class_admission_required admission accepted_state chain_lock ≡ []) ↔ (
        AreActive admission accepted_state chain_lock
        × Arranges
            (λ x. x.order)
            (λ x. x.claim_class)
            admission.admitted_claim_classes
            accepted_state.accepted_claim_classes
        × Arranges
            (λ x. x.stage)
            (λ x. x.claim_class)
            chain_lock.chain
            accepted_state.accepted_claim_classes
        × All (λ cls. cls.required ≡ true) admission.admitted_claim_classes)
unfolding ordered_law_classes ordered_chain_classes
assert_claim_class_admission_required-Arranges_iff admission accepted_state chain_lock orders
      stages =
    let code = assert_claim_class_admission_required-nil_iff admission accepted_state chain_lock in
    let accepted = accepted_state.accepted_claim_classes in
    let law =
      Arranges-iff (λ x. x.order) (λ x. x.claim_class) admission.admitted_claim_classes accepted
        orders in
    let chain = Arranges-iff (λ x. x.stage) (λ x. x.claim_class) chain_lock.chain accepted stages in
    (
      (λ h.
          let ((active, (l, c)), required) = code.0 h in
          (active, law.0 l, chain.0 (sym c), required)),
      (λ h.
          let (active, l, c, required) = h in
          code.1 ((active, (law.1 l, sym (chain.1 c))), required)),
    )
