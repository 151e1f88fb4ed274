-- ===== src/Audit/Run/Clean.antt =====
-- When cli/admissorium.ts exits with status 0: what has to hold of the registries and the repositories.
use admissorium.Prelude.{
  String, ◌≡◌, refl, ◌↔◌, Bool, true, false, Option, none, some, List, [], ◌∷◌, ◌++◌, map, length,
  All, append-nil_iff, length-map, arith, sym, ◌∙◌, Bool-cases, inl, inr, ◌⊎◌,
}
use admissorium.Fallible.{>>=-eq-some}
use admissorium.Report.{Finding, Severity, red, yellow, green}
use admissorium.Report.Lists.{classify_red, classify_yellow}
use admissorium.Registry.Licenses.{LicenseLoad, LicenseEntry}
use admissorium.Registry.Packages.{PackageLoad}
use admissorium.Registry.RepoClasses.{RepoClassLoad, RepoClassEntry}
use admissorium.Grouping.Laws.{keys}
use admissorium.Audit.Perimeter.{repo_perimeter_invariant}
use admissorium.Audit.Perimeter.Laws.{SameElements, repo_perimeter_invariant-nil_iff}
use admissorium.Audit.RepoClass.Laws.{
  OneEntryEach, AdmissoriumIsGate, repo_class_registry_invariant-nil_iff,
}
use admissorium.Audit.License.Laws.{IsLicensed, license_consistency_invariant-nil_iff}
use admissorium.Audit.Package.{ObservedPackage, names_of, registered}
use admissorium.Audit.Package.Laws.{SourcesAgree, package_registry_invariant-nil_iff}
use admissorium.Audit.Inventory.{LocalRepo, build_accepted_graph}
use admissorium.Audit.Local.{
  World, Loaded, license_of, expected_license_findings, license_here, license_findings,
  observed_packages, class_findings, package_findings, local_findings, repos_of, read_text,
}
use admissorium.Audit.Run.{count_findings, audit_findings, report_of, exit_status}
use admissorium.Audit.Run.NeverGreen.{AreSevere, audit_findings-AreSevere}

-- A registry that is not there asks nothing.
abbrev pub When : Bool → Type 0 → Type 0
When true P = P
When false P = Unit

-- The license and the README that are read agree with the entry, if there is one.
abbrev pub LicenseHolds : World → LocalRepo → Option LicenseEntry → Type 0
LicenseHolds world repo none = Unit
LicenseHolds world repo (some entry) =
    (license readme : Option String) × (read_text world.disk
        (world.disk.join_path (repo.path ∷ "LICENSE" ∷ []))
      ≡ some license)
    × (read_text world.disk (world.disk.join_path (repo.path ∷ "README.md" ∷ [])) ≡ some readme)
    × IsLicensed world.canonical repo.repo license readme entry.license

-- Every repository has one entry, which is a gate's for ADMISSORIUM.
abbrev pub ClassesMatch : List String → List RepoClassEntry → Type 0
ClassesMatch governed entries =
    OneEntryEach entries
    × SameElements governed (map (λ (entry : RepoClassEntry). entry.repo) entries)
    × AdmissoriumIsGate entries

-- The packages that are registered with one source each are those that are read.
abbrev pub PackagesMatch : World → PackageLoad → List LocalRepo → Type 0
PackagesMatch world load inventory =
    (observed : List ObservedPackage) × (observed_packages world.disk inventory ≡ some observed)
    × SourcesAgree (registered load.entries)
    × SameElements (keys (registered load.entries)) (names_of observed)

-- What the repositories that are checked out have to fulfil; if none is, nothing.
abbrev pub IsMatched : World → Loaded → List LocalRepo → Type 0
IsMatched world loaded [] = Unit
IsMatched world loaded (repo ∷ repos) =
    SameElements loaded.governed.repos (repos_of (repo ∷ repos))
    × When loaded.classes.present (ClassesMatch loaded.governed.repos loaded.classes.entries)
    × All (λ r. LicenseHolds world r (license_of r.repo loaded.licenses.entries)) (repo ∷ repos)
    × When loaded.packages.present (PackagesMatch world loaded.packages (repo ∷ repos))

license_here-nil_iff :
    (world : World) (repo : LocalRepo) (source : String) (entry : Option LicenseEntry)
    (findings : List Finding)
    → license_here world repo source entry ≡ some findings
    → (findings ≡ []) ↔ LicenseHolds world repo entry
unfolding license_here expected_license_findings
license_here-nil_iff world repo source none findings e = ((λ h. tt), (λ h. ground arith))
license_here-nil_iff world repo source (some entry) findings e =
    let (license, is_license, rest) =
      >>=-eq-some (read_text world.disk (world.disk.join_path (repo.path ∷ "LICENSE" ∷ []))) _ e in
    let (readme, is_readme, made) =
      >>=-eq-some (read_text world.disk (world.disk.join_path (repo.path ∷ "README.md" ∷ []))) _
        rest in
    (
      (λ h. (
        license,
        readme,
        is_license,
        is_readme,
        (license_consistency_invariant-nil_iff world.canonical repo.repo license readme
              entry.license source).0
            (ground arith),
      )),
      (λ holds.
          let (text, page, is_text, is_page, licensed) = holds in
          let quiet =
            (license_consistency_invariant-nil_iff world.canonical repo.repo text page entry.license
                source).1
              licensed in
          let same_text : text ≡ license = ground arith in
          let same_page : page ≡ readme = ground arith in
          let here = rw (same_text, same_page) at quiet in ground arith),
    )

license_findings-nil_iff :
    (world : World) (load : LicenseLoad) (repos : List LocalRepo) (findings : List Finding)
    → license_findings world load repos ≡ some findings
    → (findings ≡ []) ↔ All (λ r. LicenseHolds world r (license_of r.repo load.entries)) repos
unfolding license_findings
license_findings-nil_iff world load [] findings e = ((λ h. tt), (λ h. ground arith))
license_findings-nil_iff world load (repo ∷ repos) findings e =
    let (here, found, rest) =
      >>=-eq-some (license_here world repo load.source (license_of repo.repo load.entries)) _ e in
    let (later, listed, made) = >>=-eq-some (license_findings world load repos) _ rest in
    let both = append-nil_iff here later in
    let whole : here ++ later ≡ findings = ground arith in
    let first = license_here-nil_iff world repo load.source _ here found in
    let others = license_findings-nil_iff world load repos later listed in
    (
      (λ h. let (a, b) = both.0 (rw whole h) in (first.0 a, others.0 b)),
      (λ h. let empty = both.1 (first.1 h.0, others.1 h.1) in rw whole at empty),
    )

package_findings-nil_iff :
    (world : World) (load : PackageLoad) (inventory : List LocalRepo) (findings : List Finding)
    → package_findings world.disk load inventory ≡ some findings
    → (findings ≡ []) ↔ When load.present (PackagesMatch world load inventory)
unfolding package_findings
package_findings-nil_iff world load inventory findings e = elim (Bool-cases load.present) [
  | inl there ↦
      let (observed, read, made) =
        >>=-eq-some (observed_packages world.disk inventory) _ (rw there at e) in
      let quiet = package_registry_invariant-nil_iff load.entries observed load.source in
      (
        (λ h.
            rw there (let (agree, same) = quiet.0 (ground arith) in (observed, read, agree, same))),
        (λ h.
            let (others, read_too, agree, same) = rw there at h in
            let equal : others ≡ observed = ground arith in
            let empty = quiet.1 (agree, rw equal at same) in ground arith),
      )
  | inr absent ↦
      let none_found : [] ≡ findings = let e = rw absent at e in ground arith in
      ((λ h. rw absent tt), (λ h. sym none_found))
]

class_findings-nil_iff :
    (governed : List String) (load : RepoClassLoad)
    → (class_findings governed load ≡ []) ↔ When load.present (ClassesMatch governed load.entries)
class_findings-nil_iff governed load =
    let quiet = repo_class_registry_invariant-nil_iff governed load.entries load.source in
    elim (Bool-cases load.present) [
      | inl there ↦ rw there quiet
      | inr absent ↦ rw absent ((λ h. tt), (λ h. refl))
    ]

local_findings-nil_iff :
    (world : World) (loaded : Loaded) (inventory : List LocalRepo) (findings : List Finding)
    → local_findings world loaded inventory ≡ some findings
    → (findings ≡ []) ↔ IsMatched world loaded inventory
unfolding local_findings
local_findings-nil_iff world loaded [] findings e = ((λ h. tt), (λ h. ground arith))
local_findings-nil_iff world loaded (repo ∷ repos) findings e =
    let inventory = repo ∷ repos in
    let (licenses, found, rest) =
      >>=-eq-some (license_findings world loaded.licenses inventory) _ e in
    let (packages, listed, made) =
      >>=-eq-some (package_findings world.disk loaded.packages inventory) _ rest in
    let perimeter = repo_perimeter_invariant loaded.governed.repos (repos_of inventory) in
    let classes = class_findings loaded.governed.repos loaded.classes in
    let whole : ((perimeter ++ classes) ++ licenses) ++ packages ≡ findings = ground arith in
    let same = repo_perimeter_invariant-nil_iff loaded.governed.repos (repos_of inventory) in
    let classed = class_findings-nil_iff loaded.governed.repos loaded.classes in
    let licensed = license_findings-nil_iff world loaded.licenses inventory licenses found in
    let packed = package_findings-nil_iff world loaded.packages inventory packages listed in
    (
      (λ h.
          let (abc, d) = (append-nil_iff _ packages).0 (whole ∙ h) in
          let (ab, c) = (append-nil_iff _ licenses).0 abc in
          let (a, b) = (append-nil_iff perimeter classes).0 ab in
          (same.0 a, classed.0 b, licensed.0 c, packed.0 d)),
      (λ h.
          let (a, b, c, d) = h in
          sym whole
          ∙ (append-nil_iff _ packages).1 (
            (append-nil_iff _ licenses).1
                ((append-nil_iff perimeter classes).1 (same.1 a, classed.1 b), licensed.1 c),
            packed.1 d,
          )),
    )

count_findings-nil_iff :
    (loaded : Loaded) → (count_findings loaded ≡ []) ↔ (length loaded.governed.repos ≡ 35)
unfolding count_findings build_accepted_graph
count_findings-nil_iff loaded = rw (length-map _ loaded.governed.repos) (ground arith)

no_severe :
    (findings : List Finding)
    → AreSevere findings
    → length (classify_red findings) ≡ 0
    → length (classify_yellow findings) ≡ 0
    → findings ≡ []
unfolding AreSevere
no_severe [] severe reds yellows = refl
no_severe (f ∷ fs) severe reds yellows = elim (severity_cases f.severity) [
  | inl is_red ↦ absurd (ground arith)
  | inr (inl is_yellow) ↦ absurd (ground arith)
  | inr (inr is_green) ↦ absurd (severe.0 is_green)
]
  where
    severity_cases : (s : Severity) → (s ≡ red) ⊎ (s ≡ yellow) ⊎ (s ≡ green)
    severity_cases red = inl refl
    severity_cases yellow = inr (inl refl)
    severity_cases green = inr (inr refl)

exit_status-nil_iff :
    (world : World) (org : String) (findings : List Finding)
    → AreSevere findings
    → (exit_status (report_of world org findings) ≡ 0) ↔ (findings ≡ [])
unfolding exit_status report_of
exit_status-nil_iff world org findings severe =
    ((λ h. no_severe findings severe (ground arith) (ground arith)), (λ h. rw h))

audit_parts :
    (world : World) (loaded : Loaded) (findings : List Finding)
    → audit_findings world loaded ≡ some findings
    → (local : List Finding) × (local_findings world loaded loaded.inventory ≡ some local)
      × (local ++ count_findings loaded ≡ findings)
unfolding audit_findings
audit_parts world loaded findings e =
    let (local, found, made) = >>=-eq-some (local_findings world loaded loaded.inventory) _ e in
    (local, found, ground arith)

-- An audit that ends in findings exits with 0 exactly if 35 repositories are governed and the
-- repositories that are checked out are none, or are the governed ones, each with the license that is
-- registered for it, with one entry each in the registry of classes and the packages of the registry of
-- packages, where these registries are there.
pub audit-clean_iff :
    (world : World) (org : String) (loaded : Loaded) (findings : List Finding)
    → audit_findings world loaded ≡ some findings
    → (exit_status (report_of world org findings) ≡ 0)
      ↔ (IsMatched world loaded loaded.inventory × (length loaded.governed.repos ≡ 35))
audit-clean_iff world org loaded findings e =
    let (local, found, whole) = audit_parts world loaded findings e in
    let status =
      exit_status-nil_iff world org findings (audit_findings-AreSevere world loaded findings e) in
    let both = append-nil_iff local (count_findings loaded) in
    let matched = local_findings-nil_iff world loaded loaded.inventory local found in
    let counted = count_findings-nil_iff loaded in
    (
      (λ h. let (a, b) = both.0 (whole ∙ status.0 h) in (matched.0 a, counted.0 b)),
      (λ h. status.1 (sym whole ∙ both.1 (matched.1 h.0, counted.1 h.1))),
    )
