-- ===== src/Audit/License.antt =====
-- invariants/license-consistency.ts: the license text shows the license that governance names.
--
-- A regular expression with the flag `i` compares characters after `Canonicalize`, which maps ASCII to
-- ASCII; `canonical` is its table above ASCII.
pub mod Laws
use admissorium.Prelude.{
  Char, String, Bool, true, false, not, ◌&&◌, ◌||◌, ◌==◌, Option, none, some, List, [], ◌∷◌, ◌++◌,
  if◌then◌else◌,
}
use admissorium.Text.{is_empty, contains, to_upper_case}
use admissorium.Js.{str}
use admissorium.Report.{Finding, yellow}

-- `/words/i.test(text)`, for words without special characters or with each of them escaped
abbrev pub contains_any_case : (Char → String) → (text words : String) → Bool
contains_any_case canonical text words =
    contains (to_upper_case canonical text) (to_upper_case canonical words)

-- `expectedLicenseSignal(license).test(text)`
unfoldable pub shows_license : (Char → String) → (license text : String) → Bool
shows_license canonical license text =
    let shows = contains_any_case canonical text in
    if license == "Apache-2.0"
    then shows "Apache License"
    else if license == "AGPL-3.0"
    then shows "GNU Affero General Public License" || shows "Affero General Public License"
    else if license == "GPL-3.0"
    then shows "GNU General Public License"
    else if license == "MPL-2.0"
    then shows "Mozilla Public License"
    else shows license

abbrev license_finding :
    (finding_id repo surface expected observed source_of_truth action : String) → Finding
license_finding finding_id repo surface expected observed source_of_truth action = record {
  finding_id = finding_id;
  severity = yellow;
  repo = repo;
  surface = surface;
  invariant = "one_license_truth";
  expected = str expected;
  observed = str observed;
  source_of_truth = source_of_truth;
  autofix_allowed = true;
  recommended_action = action;
}

abbrev missing_finding : (repo expected source_of_truth : String) → Finding
missing_finding repo expected source_of_truth =
    license_finding "YELLOW-LICENSE-MISSING" repo "LICENSE" expected "LICENSE missing"
      source_of_truth "Add LICENSE matching governance license registry."

abbrev mismatch_finding : (repo expected source_of_truth : String) → Finding
mismatch_finding repo expected source_of_truth =
    license_finding "YELLOW-LICENSE-FILE-MISMATCH" repo "LICENSE" expected
      "LICENSE text does not expose the expected license signal" source_of_truth
      "Align LICENSE text with governance license registry."

abbrev wording_finding : (repo source_of_truth : String) → Finding
wording_finding repo source_of_truth =
    license_finding "YELLOW-AUCTORISEAL-LICENSE-WORDING" repo "README.md"
      "GNU Affero General Public License v3.0" "GNU General Public License v3.0" source_of_truth
      "Normalize README wording to AGPL-3.0."

-- whether a README of AUCTORISEAL names the GPL and not the AGPL, which is expected
unfoldable pub is_misworded : (repo : String) → Option String → (expected : String) → Bool
is_misworded repo none expected = false
is_misworded repo (some readme) expected =
    repo == "Verifrax/AUCTORISEAL"
    && not (is_empty readme)
    && expected == "AGPL-3.0"
    && contains readme "GNU General Public License v3.0"
    && not (contains readme "GNU Affero General Public License v3.0")

unfoldable pub license_text_findings :
    (Char → String)
    → (repo text expected : String) → (readme : Option String) → (source_of_truth : String)
    → List Finding
license_text_findings canonical repo text expected readme source_of_truth =
    (if shows_license canonical expected text
      then []
      else mismatch_finding repo expected source_of_truth ∷ [])
    ++ (if is_misworded repo readme expected then wording_finding repo source_of_truth ∷ [] else [])

unfoldable pub license_consistency_invariant :
    (Char → String)
    → (repo : String) → (license_text readme_text : Option String)
    → (expected source_of_truth : String) → List Finding
license_consistency_invariant canonical repo none readme expected source_of_truth =
    missing_finding repo expected source_of_truth ∷ []
license_consistency_invariant canonical repo (some text) readme expected source_of_truth =
    if is_empty text
    then missing_finding repo expected source_of_truth ∷ []
    else license_text_findings canonical repo text expected readme source_of_truth
