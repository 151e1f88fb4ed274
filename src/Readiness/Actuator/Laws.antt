-- ===== src/Readiness/Actuator/Laws.antt =====
-- When the actuator is ready.
use admissorium.Prelude.{
  ◌≡◌, refl, ◌↔◌, Char, String, Bool, true, false, some, List, [], ◌∷◌, map, All, arith,
}
use admissorium.Registry.{Disk}
use admissorium.Readiness.{pass, outcome}
use admissorium.Readiness.Laws.{failed_count-zero_iff}
use admissorium.Readiness.Actuator.{
  ActuatorReadiness, ForbiddenMaterialization, ForbiddenPattern, Requirement, requirement,
  readiness, build_actuator_readiness, required_actuator_pipeline_files, plan_only_scan_files,
  forbidden_patterns,
}
use admissorium.Readiness.Actuator.Scan.{
  IsPlanOnly, IsReadable, IsThere, scan_all-pass_iff, scan_all-returns,
}

outcome-pass_iff : (b : Bool) → (outcome b ≡ pass) ↔ (b ≡ true)
outcome-pass_iff true = ((λ h. refl), (λ h. refl))
outcome-pass_iff false = ((λ h. absurd (ground arith)), (λ h. absurd (ground arith)))

readiness-ready_iff :
    (requirements : List Requirement) (forbidden : List ForbiddenMaterialization) {P Q : Type 0}
    → All (λ (r : Requirement). r.status ≡ pass) requirements ↔ P
    → All (λ (f : ForbiddenMaterialization). f.status ≡ pass) forbidden ↔ Q
    → ((readiness requirements forbidden).ready ≡ true) ↔ (P × Q)
readiness-ready_iff requirements forbidden required plan_only =
    let missing = failed_count-zero_iff (λ (r : Requirement). r.status) requirements in
    let found = failed_count-zero_iff (λ (f : ForbiddenMaterialization). f.status) forbidden in
    (
      (λ ready. (required.0 (missing.0 (ground arith)), plan_only.0 (found.0 (ground arith)))),
      (λ all.
          let none_missing = missing.1 (required.1 all.0) in
          let none_found = found.1 (plan_only.1 all.1) in ground arith),
    )

module _ (disk : Disk) (root : String) where
  requirements-pass_iff :
      (paths : List String)
      → All (λ (r : Requirement). r.status ≡ pass) (map (requirement disk root) paths)
        ↔ All (IsThere disk root) paths
  requirements-pass_iff [] = ((λ e. tt), (λ e. tt))
  requirements-pass_iff (path ∷ paths) =
      let others = requirements-pass_iff paths in
      let here = outcome-pass_iff (disk.exists (disk.join_path (root ∷ path ∷ []))) in
      ((λ e. (here.0 e.0, others.0 e.1)), (λ e. (here.1 e.0, others.1 e.1)))

-- What the actuator needs is there, and no file that only plans holds what carries anything out.
abbrev pub IsActuatorReady : (canonical : Char → String) → Disk → (root : String) → Type 0
IsActuatorReady canonical disk root =
    All (IsThere disk root) required_actuator_pipeline_files
    × All (λ (item : ForbiddenPattern). IsPlanOnly disk root item.hits)
        (forbidden_patterns canonical)

-- If each of the files that only plan can be read where it is there, the readiness report is made; and
-- it says ready exactly if every required file is there and, for every forbidden pattern, each of the
-- files that only plan is missing or holds a text that the pattern does not hit.
pub build_actuator_readiness-ready_iff :
    (canonical : Char → String) (disk : Disk) (root : String)
    → All (IsReadable disk root) plan_only_scan_files
    → (artifact : ActuatorReadiness) × (build_actuator_readiness canonical disk root
        ≡ some artifact)
      × ((artifact.ready ≡ true) ↔ IsActuatorReady canonical disk root)
unfolding build_actuator_readiness
build_actuator_readiness-ready_iff canonical disk root readable =
    let patterns = forbidden_patterns canonical in
    let requirements = map (requirement disk root) required_actuator_pipeline_files in
    let (scanned, ran) = scan_all-returns disk root patterns readable in
    let required = requirements-pass_iff disk root required_actuator_pipeline_files in
    let plan_only = scan_all-pass_iff disk root patterns scanned ran in
    (
      readiness requirements scanned,
      rw ran refl,
      readiness-ready_iff requirements scanned required plan_only,
    )
