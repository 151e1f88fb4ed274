-- ===== src/Gate/TruthTyping/Laws.antt =====
-- What src/admission/assert-active-historical-truth-typing-required.ts takes for green.
use mathlib.Core.Path.{subst}
use admissorium.Prelude.{
  ◌≡◌, refl, ◌≢◌, ◌↔◌, true, false, Option, none, some, List, [], ◌∷◌, ◌++◌, map, All, arith,
}
use admissorium.Js.{Fields, bool, str, get}
use admissorium.Grouping.Laws.{IsDistinct}
use admissorium.Gate.{green}
use admissorium.Gate.Laws.{
  Pass, report-green_iff, Bound, WhenPresent, differs_iff, or_false_iff, missing_or_iff,
  present_and_iff,
}
use admissorium.Gate.Demands.{Demand, says, sets, Fulfilled, Pass-demands, Pass-each, Pass-both}
use admissorium.Gate.Cognition.Surfaces.{is_str-false_iff, is_bool-false_iff}
use admissorium.Gate.Cognition.Laws.{Lists, Lists_iff}
use admissorium.Gate.TruthTyping.{
  TruthTypingInput, required_categories, required_families, current_truth_families, claims_truth,
  is_active_truth_claim, identity_checks, category_check, family_check, duplicate_checks,
  policy_checks, truth_typing_checks, truth_surface_checks, historical_checks,
  assert_active_historical_truth_typing_required,
}
use admissorium.Gate.TruthTyping.Families.{HasFamily, current_truth_families_iff, has_duplicate_iff}

abbrev typing_demands : Fields → List Demand
typing_demands typing =
    says typing "object_type" "ActiveHistoricalTruthTyping"
    ∷ says typing "typing_id" "active-historical-truth-typing-0001"
    ∷ says typing "status" "ACTIVE_TRUTH"
    ∷ []

abbrev policy_demands : Fields → List Demand
policy_demands typing =
    says typing "current_truth_policy" "ONE_ACTIVE_TRUTH_PER_OBJECT_FAMILY"
    ∷ says typing "historical_material_policy" "MUST_SELF_IDENTIFY_AS_HISTORICAL"
    ∷ says typing "projection_policy" "PROJECTIONS_NEVER_ACTIVE_TRUTH"
    ∷ says typing "status_surface_policy" "STATUS_SURFACES_NOT_TRUTH_SOURCE"
    ∷ sets typing false "may_promote_projection_to_truth" (
        "may_promote_status_to_truth" ∷ "may_promote_historical_snapshot_to_current"
        ∷ "may_infer_missing_truth" ∷ [])
    ∷ []

-- The typing says what it is, lists every category, binds every object family, none of them twice,
-- and has the policies and no right to promote.
pub record IsTyping (typing : Fields) : Type 0 where
  pub identity : Fulfilled (typing_demands typing)
  pub categories : All (Lists (get typing "truth_categories")) required_categories
  pub families : All (HasFamily (get typing "current_truth_refs")) required_families
  pub one_each : IsDistinct (current_truth_families (get typing "current_truth_refs"))
  pub policies : Fulfilled (policy_demands typing)

-- The surface does not pass for truth or a source of it.
pub record ClaimsNoTruth (value : Fields) : Type 0 where
  pub no_truth :
      All
        (λ key. get value key ≢ str "ACTIVE_TRUTH")
        ("status" ∷ "truth_kind" ∷ "truth_status" ∷ [])
  pub no_source : All (λ key. get value key ≢ bool true) ("is_truth_source" ∷ "truth_source" ∷ [])

-- The snapshot says that it is one, and not that it is active.
abbrev pub IsHistorical : Fields → Type 0
IsHistorical snapshot =
    (get snapshot "status" ≢ str "ACTIVE_TRUTH")
    × (get snapshot "truth_kind" ≢ str "ACTIVE_TRUTH")
    × (get snapshot "historical_status" ≡ str "HISTORICAL_SNAPSHOT")

duplicate_checks_iff :
    (typing : Fields)
    → Pass (duplicate_checks typing)
      ↔ IsDistinct (current_truth_families (get typing "current_truth_refs"))
duplicate_checks_iff typing =
    let distinct = has_duplicate_iff (current_truth_families (get typing "current_truth_refs")) in
    ((λ h. distinct.0 h.0), (λ d. (distinct.1 d, tt)))

present-IsTyping_iff :
    (typing : Fields) → Pass (truth_typing_checks (some typing)) ↔ IsTyping typing
unfolding truth_typing_checks
present-IsTyping_iff typing =
    let a = identity_checks typing in
    let b = map (category_check typing) required_categories in
    let c = map (family_check typing) required_families in
    let d = duplicate_checks typing in
    let e = policy_checks typing in
    let categories = get typing "truth_categories" in
    let refs = get typing "current_truth_refs" in
    let identity = Pass-demands a (typing_demands typing) refl in
    let listed =
      Pass-each (category_check typing) (Lists categories) (Lists_iff categories)
        required_categories in
    let bound =
      Pass-each (family_check typing) (HasFamily refs) (current_truth_families_iff refs)
        required_families in
    let policies = Pass-demands e (policy_demands typing) refl in
    let three = Pass-both (a ++ b) c (Pass-both a b identity listed) bound in
    let four = Pass-both (a ++ b ++ c) d three (duplicate_checks_iff typing) in
    let whole = Pass-both (a ++ b ++ c ++ d) e four policies in
    (
      (λ h.
          let ((((i, l), b), o), p) = whole.0 h in
          record { identity = i; categories = l; families = b; one_each = o; policies = p }),
      (λ t. whole.1 ((((t.identity, t.categories), t.families), t.one_each), t.policies)),
    )

truth_typing_checks_iff : (o : Option Fields) → Pass (truth_typing_checks o) ↔ Bound o IsTyping
truth_typing_checks_iff none =
    ((λ h. unfold truth_typing_checks in absurd (ground arith)), (λ h. absurd (ground arith)))
truth_typing_checks_iff (some typing) =
    let iff = present-IsTyping_iff typing in
    (
      (λ h. (typing, refl, iff.0 h)),
      (λ h. let (other, e, met) = h in iff.1 (subst IsTyping (ground arith) met)),
    )

claims_truth_iff : (value : Fields) → (claims_truth value ≡ false) ↔ ClaimsNoTruth value
claims_truth_iff value =
    let a = is_str-false_iff (get value "status") "ACTIVE_TRUTH" in
    let b = is_str-false_iff (get value "truth_kind") "ACTIVE_TRUTH" in
    let c = is_str-false_iff (get value "truth_status") "ACTIVE_TRUTH" in
    let d = is_bool-false_iff (get value "is_truth_source") true in
    let e = is_bool-false_iff (get value "truth_source") true in
    (
      (λ h.
          let (h, he) = (or_false_iff _ _).0 h in
          let (h, hd) = (or_false_iff _ _).0 h in
          let (h, hc) = (or_false_iff _ _).0 h in
          let (ha, hb) = (or_false_iff _ _).0 h in
          record {
            no_truth = (a.0 ha, (b.0 hb, (c.0 hc, tt)));
            no_source = (d.0 hd, (e.0 he, tt));
          }),
      (λ n.
          let (na, (nb, (nc, _))) = n.no_truth in
          let (nd, (ne, _)) = n.no_source in rw (a.1 na, b.1 nb, c.1 nc, d.1 nd, e.1 ne)),
    )

-- The index points to the typing.
abbrev pub PointsToTyping : Fields → Type 0
PointsToTyping index =
    get index "current_truth_typing_ref"
    ≡ str "truth-typing/current/active-historical-truth-typing-0001.json"

truth_surface_checks_iff :
    (input : TruthTypingInput)
    → Pass (truth_surface_checks input) ↔ (
        Bound input.truth_typing_index PointsToTyping
        × WhenPresent input.projection ClaimsNoTruth
        × WhenPresent input.status_surface ClaimsNoTruth)
unfolding truth_surface_checks is_active_truth_claim
truth_surface_checks_iff input =
    let index =
      missing_or_iff _ PointsToTyping (λ index. differs_iff _ _) input.truth_typing_index in
    let projection = present_and_iff claims_truth ClaimsNoTruth claims_truth_iff input.projection in
    let status = present_and_iff claims_truth ClaimsNoTruth claims_truth_iff input.status_surface in
    (
      (λ h. let (i, (p, (s, _))) = h in (index.0 i, projection.0 p, status.0 s)),
      (λ h. let (i, p, s) = h in (index.1 i, (projection.1 p, (status.1 s, tt)))),
    )

historical_checks_iff :
    (o : Option Fields) → Pass (historical_checks o) ↔ WhenPresent o IsHistorical
unfolding historical_checks
historical_checks_iff none = ((λ h. tt), (λ h. tt))
historical_checks_iff (some snapshot) =
    let a = is_str-false_iff (get snapshot "status") "ACTIVE_TRUTH" in
    let b = is_str-false_iff (get snapshot "truth_kind") "ACTIVE_TRUTH" in
    let c = differs_iff (get snapshot "historical_status") "HISTORICAL_SNAPSHOT" in
    (
      (λ h.
          let (claims, (untyped, _)) = h in
          let (ha, hb) = (or_false_iff _ _).0 claims in (a.0 ha, b.0 hb, c.0 untyped)),
      (λ h. let (na, nb, nc) = h in ((or_false_iff _ _).1 (a.1 na, b.1 nb), (c.1 nc, tt))),
    )

-- The gate is green exactly if the typing is there, says what it is, lists every category, binds every
-- object family, none of them twice, and has the policies and no right to promote; the index points to
-- it; neither the projection nor the status surface passes for truth or a source of it; and a
-- historical snapshot, if there is one, says that it is one and not that it is active.
pub assert_active_historical_truth_typing_required-green_iff :
    (input : TruthTypingInput)
    → ((assert_active_historical_truth_typing_required input).status ≡ green) ↔ (
        Bound input.truth_typing IsTyping
        × Bound input.truth_typing_index PointsToTyping
        × WhenPresent input.projection ClaimsNoTruth
        × WhenPresent input.status_surface ClaimsNoTruth
        × WhenPresent input.historical_snapshot IsHistorical)
unfolding assert_active_historical_truth_typing_required
assert_active_historical_truth_typing_required-green_iff input =
    let a = truth_typing_checks input.truth_typing in
    let b = truth_surface_checks input in
    let c = historical_checks input.historical_snapshot in
    let typed = truth_typing_checks_iff input.truth_typing in
    let two = Pass-both a b typed (truth_surface_checks_iff input) in
    let whole = Pass-both (a ++ b) c two (historical_checks_iff input.historical_snapshot) in
    let green_iff = report-green_iff "ACTIVE_HISTORICAL_TRUTH_TYPING_REQUIRED" (a ++ b ++ c) in
    (
      (λ h. let ((t, (i, p, s)), n) = whole.0 (green_iff.0 h) in (t, i, p, s, n)),
      (λ h. let (t, i, p, s, n) = h in green_iff.1 (whole.1 ((t, (i, p, s)), n))),
    )
