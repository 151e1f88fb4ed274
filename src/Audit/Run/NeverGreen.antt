-- ===== src/Audit/Run/NeverGreen.antt =====
-- Every finding of cli/admissorium.ts is red or yellow: without one of these there is none at all.
use mathlib.Core.Path.{subst}
use admissorium.Prelude.{
  String, ◌≡◌, ◌≢◌, Bool, true, false, Option, none, some, List, [], ◌∷◌, ◌++◌, map, All, arith,
  if◌then◌else◌, Bool-cases, inl, inr,
}
use admissorium.Fallible.{>>=-eq-some}
use admissorium.Report.{Finding, yellow, green}
use admissorium.Registry.Licenses.{LicenseLoad, LicenseEntry}
use admissorium.Registry.Packages.{PackageLoad, PackageEntry}
use admissorium.Registry.RepoClasses.{RepoClassEntry}
use admissorium.Audit.Perimeter.{repo_perimeter_invariant}
use admissorium.Audit.RepoClass.{
  repo_class_registry_invariant, duplicate_findings, class_perimeter_findings, role_findings,
  entry_of,
}
use admissorium.Audit.License.Laws.{license_consistency_invariant-yellow}
use admissorium.Audit.Package.{ObservedPackage, package_registry_invariant}
use admissorium.Audit.Inventory.{LocalRepo}
use admissorium.Audit.Local.{
  World, Loaded, license_of, expected_license_findings, license_here, license_findings,
  observed_packages, package_findings, local_findings, repos_of, read_text,
}
use admissorium.Audit.Run.{count_findings, audit_findings}

abbrev pub IsSevere : Finding → Type 0
IsSevere finding = finding.severity ≢ green

unfoldable pub AreSevere : List Finding → Type 0
AreSevere findings = All IsSevere findings

AreSevere-append : (xs ys : List Finding) → AreSevere xs → AreSevere ys → AreSevere (xs ++ ys)
unfolding AreSevere
AreSevere-append [] ys h k = k
AreSevere-append (x ∷ xs) ys h k = (h.0, AreSevere-append xs ys h.1 k)

AreSevere-map :
    {A : Type 0} (f : A → Finding) (xs : List A) → ((x : A) → IsSevere (f x)) → AreSevere (map f xs)
unfolding AreSevere
AreSevere-map f [] h = tt
AreSevere-map f (x ∷ xs) h = (h x, AreSevere-map f xs h)

AreSevere-if :
    (b : Bool) (xs ys : List Finding)
    → AreSevere xs
    → AreSevere ys
    → AreSevere (if b then xs else ys)
AreSevere-if true xs ys h k = h
AreSevere-if false xs ys h k = k

AreSevere-one : (finding : Finding) → IsSevere finding → AreSevere (finding ∷ [])
unfolding AreSevere
AreSevere-one finding h = (h, tt)

AreSevere-nil : AreSevere []
unfolding AreSevere
AreSevere-nil = tt

repo_perimeter_invariant-AreSevere :
    (expected observed : List String) → AreSevere (repo_perimeter_invariant expected observed)
unfolding repo_perimeter_invariant
repo_perimeter_invariant-AreSevere expected observed =
    AreSevere-if _ _ _ AreSevere-nil (AreSevere-one _ (λ e. cc))

role_findings-AreSevere :
    (entry : Option RepoClassEntry) (source : String) → AreSevere (role_findings entry source)
unfolding role_findings
role_findings-AreSevere none source = AreSevere-nil
role_findings-AreSevere (some entry) source =
    AreSevere-if _ _ _ (AreSevere-one _ (λ e. cc)) AreSevere-nil

repo_class_registry_invariant-AreSevere :
    (governed : List String) (entries : List RepoClassEntry) (source : String)
    → AreSevere (repo_class_registry_invariant governed entries source)
unfolding repo_class_registry_invariant duplicate_findings class_perimeter_findings
repo_class_registry_invariant-AreSevere governed entries source =
    AreSevere-append _ _
      (AreSevere-append _ _ (AreSevere-map _ _ (λ x e. cc))
        (AreSevere-if _ _ _ AreSevere-nil (AreSevere-one _ (λ e. cc))))
      (role_findings-AreSevere (entry_of "Verifrax/ADMISSORIUM" entries) source)

package_registry_invariant-AreSevere :
    (entries : List PackageEntry) (observed : List ObservedPackage) (source : String)
    → AreSevere (package_registry_invariant entries observed source)
unfolding package_registry_invariant
package_registry_invariant-AreSevere entries observed source =
    AreSevere-append _ _
      (AreSevere-append _ _ (AreSevere-map _ _ (λ x e. cc)) (AreSevere-map _ _ (λ x e. cc)))
      (AreSevere-map _ _ (λ x e. cc))

yellow-AreSevere :
    (findings : List Finding)
    → All (λ f. (f.severity ≡ yellow) × (f.autofix_allowed ≡ true)) findings
    → AreSevere findings
unfolding AreSevere
yellow-AreSevere [] h = tt
yellow-AreSevere (f ∷ fs) h = ((λ e. let y = h.0.0 in cc), yellow-AreSevere fs h.1)

expected_license_findings-AreSevere :
    (world : World) (repo : LocalRepo) (entry : LicenseEntry) (source : String)
    (findings : List Finding)
    → expected_license_findings world repo entry source ≡ some findings
    → AreSevere findings
unfolding expected_license_findings
expected_license_findings-AreSevere world repo entry source findings e =
    let (license, _, rest) = >>=-eq-some (read_text world.disk _) _ e in
    let (readme, _, made) = >>=-eq-some (read_text world.disk _) _ rest in
    subst AreSevere (ground arith) (
      yellow-AreSevere _ (
        license_consistency_invariant-yellow world.canonical repo.repo license readme entry.license
          source))

repo_license-AreSevere :
    (world : World) (repo : LocalRepo) (found : Option LicenseEntry) (source : String)
    (findings : List Finding)
    → license_here world repo source found ≡ some findings
    → AreSevere findings
unfolding license_here
repo_license-AreSevere world repo none source findings e =
    subst AreSevere (ground arith) AreSevere-nil
repo_license-AreSevere world repo (some entry) source findings e =
    expected_license_findings-AreSevere world repo entry source findings e

license_findings-AreSevere :
    (world : World) (load : LicenseLoad) (repos : List LocalRepo) (findings : List Finding)
    → license_findings world load repos ≡ some findings
    → AreSevere findings
unfolding license_findings
license_findings-AreSevere world load [] findings e = subst AreSevere (ground arith) AreSevere-nil
license_findings-AreSevere world load (repo ∷ repos) findings e =
    let (here, found, rest) =
      >>=-eq-some (license_here world repo load.source (license_of repo.repo load.entries)) _ e in
    let (later, listed, made) = >>=-eq-some (license_findings world load repos) _ rest in
    let front = repo_license-AreSevere world repo _ load.source here found in
    let back = license_findings-AreSevere world load repos later listed in
    subst AreSevere (ground arith) (AreSevere-append here later front back)

package_findings-AreSevere :
    (world : World) (load : PackageLoad) (inventory : List LocalRepo) (findings : List Finding)
    → package_findings world.disk load inventory ≡ some findings
    → AreSevere findings
unfolding package_findings
package_findings-AreSevere world load inventory findings e = elim (Bool-cases load.present) [
  | inl there ↦
      let (observed, _, made) =
        >>=-eq-some (observed_packages world.disk inventory) _ (rw there at e) in
      subst AreSevere (ground arith)
        (package_registry_invariant-AreSevere load.entries observed load.source)
  | inr absent ↦ subst AreSevere (ground arith) AreSevere-nil
]

local_findings-AreSevere :
    (world : World) (loaded : Loaded) (inventory : List LocalRepo) (findings : List Finding)
    → local_findings world loaded inventory ≡ some findings
    → AreSevere findings
unfolding local_findings
local_findings-AreSevere world loaded [] findings e = subst AreSevere (ground arith) AreSevere-nil
local_findings-AreSevere world loaded (repo ∷ repos) findings e =
    let inventory = repo ∷ repos in
    let (licenses, found, rest) =
      >>=-eq-some (license_findings world loaded.licenses inventory) _ e in
    let (packages, listed, made) =
      >>=-eq-some (package_findings world.disk loaded.packages inventory) _ rest in
    subst AreSevere (ground arith) (
      AreSevere-append _ packages
        (AreSevere-append _ licenses
          (AreSevere-append _ _
            (repo_perimeter_invariant-AreSevere loaded.governed.repos (repos_of inventory))
            (AreSevere-if loaded.classes.present _ _
              (repo_class_registry_invariant-AreSevere loaded.governed.repos loaded.classes.entries
                loaded.classes.source)
              AreSevere-nil))
          (license_findings-AreSevere world loaded.licenses inventory licenses found))
        (package_findings-AreSevere world loaded.packages inventory packages listed))

count_findings-AreSevere : (loaded : Loaded) → AreSevere (count_findings loaded)
unfolding count_findings
count_findings-AreSevere loaded = AreSevere-if _ _ _ AreSevere-nil (AreSevere-one _ (λ e. cc))

pub audit_findings-AreSevere :
    (world : World) (loaded : Loaded) (findings : List Finding)
    → audit_findings world loaded ≡ some findings
    → AreSevere findings
unfolding audit_findings
audit_findings-AreSevere world loaded findings e =
    let (local, found, made) = >>=-eq-some (local_findings world loaded loaded.inventory) _ e in
    subst AreSevere (ground arith) (
      AreSevere-append local (count_findings loaded)
        (local_findings-AreSevere world loaded loaded.inventory local found)
        (count_findings-AreSevere loaded))
