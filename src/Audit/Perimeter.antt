-- ===== src/Audit/Perimeter.antt =====
-- invariants/repo-perimeter.ts: the checked-out repositories are the governed ones.
pub mod Laws
pub mod Sets
use admissorium.Prelude.{
  is_nil, String, Bool, true, false, not, ◌&&◌, List, [], ◌∷◌, select, includes, if◌then◌else◌,
}
use admissorium.Js.{arr}
use admissorium.Report.{Finding, red}
use admissorium.Audit.{array_of, difference}

-- the elements of the first list that the second one lacks
abbrev pub lacking : (wanted present : List String) → List String
lacking wanted present = select (λ repo. not (includes present repo)) wanted

unfoldable pub repo_perimeter_invariant : (expected observed : List String) → List Finding
repo_perimeter_invariant expected observed =
    let missing = lacking expected observed in
    let extra = lacking observed expected in
    if is_nil missing && is_nil extra
    then []
    else record {
      finding_id = "RED-REPO-PERIMETER-MISMATCH";
      severity = red;
      repo = "Verifrax/.github";
      surface = "governance/GOVERNED_REPOS.txt + local materialization inventory";
      invariant = "governed_repo_perimeter_matches_materialization";
      expected = arr (array_of expected);
      observed = difference missing extra;
      source_of_truth = ".github/governance/GOVERNED_REPOS.txt";
      autofix_allowed = false;
      recommended_action =
          "Reconcile governed repository registry against live materialization through governance review.";
    }
      ∷ []
