-- ===== src/Audit/RepoClass.antt =====
-- invariants/repo-class-registry.ts: every governed repository has one class, and ADMISSORIUM has the
-- class of a gate that owns no truth.
pub mod Laws
use admissorium.Prelude.{
  is_nil, ℕ, String, Bool, true, false, not, ◌&&◌, ◌||◌, ◌==◌, Option, none, some, List, [], ◌∷◌,
  ◌++◌, map, length, ltb, select, includes, if◌then◌else◌,
}
use admissorium.Js.{Number, finite, number, Value, Fields, arr, obj, str, bool, field, end, get}
use admissorium.Gate.{is_not}
use admissorium.Report.{Finding, red}
use admissorium.Registry.RepoClasses.{RepoClassEntry}
use admissorium.Grouping.{group}
use admissorium.Audit.{array_of, difference, count_value}
use admissorium.Audit.Perimeter.{lacking}

abbrev pub by_repo : List RepoClassEntry → List (String × RepoClassEntry)
by_repo entries = map (λ entry. (entry.repo, entry)) entries

abbrev pub repos_of : List RepoClassEntry → List String
repos_of entries = map (λ entry. entry.repo) entries

abbrev pub is_crowded {ℓ} : {A : Type ℓ} → String × List A → Bool
is_crowded (repo, bucket) = ltb 1 (length bucket)

abbrev duplicate_finding : String → String × List RepoClassEntry → Finding
duplicate_finding source_of_truth (repo, bucket) = record {
  finding_id = "RED-REPO-CLASS-DUPLICATE";
  severity = red;
  repo = repo;
  surface = source_of_truth;
  invariant = "one_repo_one_class_registry_entry";
  expected = str "exactly one repo class entry per governed repository";
  observed = count_value (length bucket);
  source_of_truth = source_of_truth;
  autofix_allowed = false;
  recommended_action = "Resolve duplicate repository class entries through governance review.";
}

unfoldable pub duplicate_findings : List RepoClassEntry → String → List Finding
duplicate_findings entries source_of_truth =
    map (duplicate_finding source_of_truth) (select is_crowded (group (by_repo entries)))

unfoldable pub class_perimeter_findings : List String → List RepoClassEntry → String → List Finding
class_perimeter_findings governed_repos entries source_of_truth =
    let missing = lacking governed_repos (repos_of entries) in
    let extra = lacking (repos_of entries) governed_repos in
    if is_nil missing && is_nil extra
    then []
    else record {
      finding_id = "RED-REPO-CLASS-PERIMETER-MISMATCH";
      severity = red;
      repo = "Verifrax/.github";
      surface = source_of_truth;
      invariant = "repo_class_registry_matches_governed_repos";
      expected = arr (array_of governed_repos);
      observed = difference missing extra;
      source_of_truth = source_of_truth;
      autofix_allowed = false;
      recommended_action =
          "Align repository class registry with governed repository registry through governance review.";
    }
      ∷ []

-- `entries.find(...)`
abbrev pub entry_of : String → List RepoClassEntry → Option RepoClassEntry
entry_of repo [] = none
entry_of repo (entry ∷ entries) =
    let later = entry_of repo entries in if entry.repo == repo then some entry else later

abbrev pub is_miscast : RepoClassEntry → Bool
is_miscast entry =
    not (entry.class == "admissibility_enforcement_implementation")
    || not (entry.primary_role == "admission_gate_actuator")
    || is_not (get entry.fields "sovereign_chamber") false
    || is_not (get entry.fields "truth_owner") false
    || is_not (get entry.fields "may_rewrite_current_truth_objects") false

abbrev expected_role : Value
expected_role = obj (
    field "class" (str "admissibility_enforcement_implementation") (
      field "primary_role" (str "admission_gate_actuator") (
        field "sovereign_chamber" (bool false) (
          field "truth_owner" (bool false)
            (field "may_rewrite_current_truth_objects" (bool false) end)))))

unfoldable pub role_findings : Option RepoClassEntry → String → List Finding
role_findings none source_of_truth = []
role_findings (some admissorium) source_of_truth =
    if is_miscast admissorium
    then record {
      finding_id = "RED-ADMISSORIUM-ROLE-BOUNDARY";
      severity = red;
      repo = "Verifrax/ADMISSORIUM";
      surface = source_of_truth;
      invariant = "admissorium_is_admissibility_enforcement_not_truth";
      expected = expected_role;
      observed = obj admissorium.fields;
      source_of_truth = source_of_truth;
      autofix_allowed = false;
      recommended_action =
          "Restore ADMISSORIUM to implementation/admissibility enforcement classification through governance review.";
    }
      ∷ []
    else []

unfoldable pub repo_class_registry_invariant :
    (governed_repos : List String) → List RepoClassEntry → (source_of_truth : String) → List Finding
repo_class_registry_invariant governed_repos entries source_of_truth =
    duplicate_findings entries source_of_truth
    ++ class_perimeter_findings governed_repos entries source_of_truth
    ++ role_findings (entry_of "Verifrax/ADMISSORIUM" entries) source_of_truth
