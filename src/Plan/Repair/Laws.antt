-- ===== src/Plan/Repair/Laws.antt =====
-- What app/projection-repair-pr-plan.ts plans to change, and what it holds back.
use mathlib.Core.Path.{subst}
use mathlib.Core.List.{Memᴰ}
use text.Mathlib.TextEquality.{starts_with_iff}
use admissorium.Prelude.{
  String, Bool, ◌==◌, ◌||◌, ◌⊎◌, inl, inr, refl, List, [], ◌∷◌, any, starts_with, eq_iff,
  Bool-cases, ◌≡◌, sym, ◌↔◌, true, false, not, map, arith, select, mem-select, select-mem, mem-map,
  map-mem,
}
use admissorium.Text.{◌⧺◌}
use admissorium.Js.{Value, str}
use admissorium.Report.{AdmissibilityReport, Finding, yellow}
use admissorium.Plan.{Printer}
use admissorium.Plan.Repair.{
  RepairPlanInput, Change, is_protected_surface, is_projection_repair_finding, to_change,
  repairable, build_repair_plan,
}

-- The directories of truth, in which nothing is repaired.
abbrev truth_directories : List String
truth_directories =
    "law" ∷ "freeze" ∷ "epochs/current" ∷ "current" ∷ "authorities/current" ∷ "receipts/current"
    ∷ "verification/results/current" ∷ "recognitions/current" ∷ "claims/current"
    ∷ "continuity/current" ∷ "transfer/current" ∷ []

-- The surface is one of these directories, or lies below one.
abbrev pub IsTruth : String → Type 0
IsTruth surface =
    (directory : String) × Memᴰ directory truth_directories
    × ((surface ≡ directory) ⊎ ((rest : String) × ((directory ⧺ "/") ⧺ rest ≡ surface)))

-- The report lists a yellow finding that may be fixed automatically.
abbrev pub IsEligible : AdmissibilityReport → Finding → Type 0
IsEligible report f = Memᴰ f report.findings × (f.severity ≡ yellow) × (f.autofix_allowed ≡ true)

abbrev evidence : Printer → Value → String
evidence printer (str s) = s
evidence printer v = printer.stringify v

-- the change that tells of a finding
abbrev pub told : Printer → Finding → Change
told printer f = record {
  finding_id = f.finding_id;
  repo = f.repo;
  surface = f.surface;
  invariant = f.invariant;
  expected = evidence printer f.expected;
  observed = evidence printer f.observed;
  recommended_action = f.recommended_action;
}

any_iff :
    {A : Type 0} (test : A → Bool) (P : A → Type 0)
    → ((x : A) → (test x ≡ true) ↔ P x)
    → (xs : List A) → (any test xs ≡ true) ↔ ((x : A) × Memᴰ x xs × P x)
any_iff test P iff [] = ((λ h. absurd (ground arith)), (λ h. elim h.1 [ ]))
any_iff test P iff (x ∷ xs) =
    let rest = any_iff test P iff xs in
    (
      (λ h. elim (Bool-cases (test x)) [
        | inl hit ↦ (x, Memᴰ.head refl, (iff x).0 hit)
        | inr miss ↦ let (y, listed, holds) = rest.0 (ground arith) in (y, Memᴰ.tail listed, holds)
      ]),
      (λ h.
          let (y, listed, holds) = h in
          elim listed [
            | Memᴰ.head same ↦ let hit = (iff x).1 (subst P same holds) in ground arith
            | Memᴰ.tail later ↦ let hit = rest.1 (y, later, holds) in ground arith
          ]),
    )

covers_iff :
    (surface directory : String)
    → ((surface == directory || starts_with surface (directory ⧺ "/")) ≡ true)
      ↔ ((surface ≡ directory) ⊎ ((rest : String) × ((directory ⧺ "/") ⧺ rest ≡ surface)))
covers_iff surface directory =
    let below = starts_with_iff surface (directory ⧺ "/") in
    (
      (λ h. elim (Bool-cases (surface == directory)) [
        | inl same ↦ inl ((eq_iff surface directory).0 same)
        | inr other ↦ inr (below.0 (ground arith))
      ]),
      (λ h. elim h [
        | inl same ↦ let here = (eq_iff surface directory).1 same in ground arith
        | inr under ↦ let hit = below.1 under in ground arith
      ]),
    )

-- A surface is protected exactly if it is, or lies below, a directory of truth.
pub is_protected_surface_iff :
    (surface : String) → (is_protected_surface surface ≡ true) ↔ IsTruth surface
unfolding is_protected_surface
is_protected_surface_iff surface = any_iff _ _ (covers_iff surface) truth_directories

pub is_protected_surface-not_iff :
    (surface : String) → (is_protected_surface surface ≡ false) ↔ (¬ IsTruth surface)
is_protected_surface-not_iff surface =
    let iff = is_protected_surface_iff surface in
    (
      (λ h truth. let hit = iff.1 truth in ground arith),
      (λ outside. elim (Bool-cases (is_protected_surface surface)) [
        | inl hit ↦ absurd (outside (iff.0 hit))
        | inr miss ↦ miss
      ]),
    )

eligible_iff :
    (f : Finding)
    → (is_projection_repair_finding f ≡ true) ↔ ((f.severity ≡ yellow) × (f.autofix_allowed ≡ true))
unfolding is_projection_repair_finding
eligible_iff f = ground arith

-- A list of changes for those of the repairable findings that pass a test.
part_iff :
    (printer : Printer) (report : AdmissibilityReport) (test : Finding → Bool)
    (P : Finding → Type 0) (change : Change)
    → ((f : Finding) → (test f ≡ true) ↔ P f)
    → Memᴰ change (map (to_change printer) (select test (repairable report)))
      ↔ ((f : Finding) × IsEligible report f × P f × (change ≡ told printer f))
unfolding to_change
part_iff printer report test P change iff = (
  (λ m.
      let (f, kept, made) =
        mem-map (to_change printer) change (select test (repairable report)) m in
      let (repaired, passed) = mem-select test f (repairable report) kept in
      let (listed, is_repair) =
        mem-select is_projection_repair_finding f report.findings repaired in
      let (is_yellow, fixable) = (eligible_iff f).0 is_repair in
      (f, (listed, is_yellow, fixable), (iff f).0 passed, made)),
  (λ h.
      let (f, (listed, is_yellow, fixable), holds, made) = h in
      let repaired =
        select-mem is_projection_repair_finding f report.findings listed
          ((eligible_iff f).1 (is_yellow, fixable)) in
      let kept = select-mem test f (repairable report) repaired ((iff f).1 holds) in
      subst (λ c. Memᴰ c (map (to_change printer) (select test (repairable report)))) (sym made)
        (map-mem (to_change printer) f (select test (repairable report)) kept)),
)

-- The changes that a plan proposes tell of exactly the yellow findings of the report that may be fixed
-- automatically and whose surface neither is nor lies below a directory of truth, and those that it
-- holds back of exactly the ones whose surface is or does; each tells the finding's own evidence.
pub build_repair_plan-parts_iff :
    (printer : Printer) (input : RepairPlanInput) (change : Change)
    → (Memᴰ change (build_repair_plan printer input).changes ↔ (
        (f : Finding) × IsEligible input.report f
        × (¬ IsTruth f.surface)
        × (change ≡ told printer f)))
      × (Memᴰ change (build_repair_plan printer input).blocked_findings ↔ (
          (f : Finding) × IsEligible input.report f
          × IsTruth f.surface
          × (change ≡ told printer f)))
unfolding build_repair_plan
build_repair_plan-parts_iff printer input change = (
  part_iff printer input.report (λ f. not (is_protected_surface f.surface))
      (λ f. ¬ IsTruth f.surface) change
      (λ f.
        let outside = is_protected_surface-not_iff f.surface in
        ((λ h. outside.0 (ground arith)), (λ h. let miss = outside.1 h in ground arith))),
  part_iff printer input.report (λ f. is_protected_surface f.surface) (λ f. IsTruth f.surface)
      change (λ f. is_protected_surface_iff f.surface),
)
