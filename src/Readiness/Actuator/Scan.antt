-- ===== src/Readiness/Actuator/Scan.antt =====
-- Which files a scan for a pattern finds, and that it ends.
use admissorium.Prelude.{
  is_nil, ◌≡◌, refl, sym, ap, ◌∙◌, ◌↔◌, String, Bool, true, false, if◌then◌else◌, Option, none,
  some, List, [], ◌∷◌, All, Bool-cases, inl, inr, ◌⊎◌, arith,
}
use mathlib.Core.Path.{subst}
use mathlib.Core.Option.{some_inj}
use admissorium.Fallible.{◌>>=◌, >>=-eq-some}
use admissorium.Registry.{Disk}
use admissorium.Readiness.{pass, outcome}
use admissorium.Readiness.Actuator.{
  ForbiddenMaterialization, ForbiddenPattern, hit_paths, scan_forbidden, scan_all,
  plan_only_scan_files,
}

-- one file of the scan: it is there or not, and is read or not
hit-clean_iff :
    (hits : String → Bool) (there : Bool) (read : Option String) (hit : Bool)
    → (if there then (read >>= λ text. some (hits text)) else some false) ≡ some hit
    → (hit ≡ false)
      ↔ ((there ≡ false) ⊎ ((text : String) × (read ≡ some text) × (hits text ≡ false)))
hit-clean_iff hits false read hit h = ((λ e. inl refl), (λ clean. ground arith))
hit-clean_iff hits true none hit h = absurd (ground arith)
hit-clean_iff hits true (some text) hit h = (
  (λ e. inr (text, refl, ground arith)),
  (λ clean. elim clean [
    | inl gone ↦ absurd (ground arith)
    | inr (other, same, missed) ↦
        let texts : text ≡ other = ground arith in let hits_both = ap hits texts in ground arith
  ]),
)

-- a list that may have been given a new head
add-nil_iff :
    (hit : Bool) (path : String) (rest found : List String) {P Q : Type 0}
    → some (if hit then path ∷ rest else rest) ≡ some found
    → (hit ≡ false) ↔ P
    → (rest ≡ []) ↔ Q
    → (found ≡ []) ↔ P × Q
add-nil_iff true path rest found e here later = (
  (λ none_found. absurd (ground arith)),
  (λ clean. let never = here.1 clean.0 in absurd (ground arith)),
)
add-nil_iff false path rest found e here later =
    let same : rest ≡ found = ground arith in
    (
      (λ none_found. (here.0 refl, later.0 (same ∙ none_found))),
      (λ clean. sym same ∙ later.1 clean.1),
    )

status-pass_iff : (paths : List String) → (outcome (is_nil paths) ≡ pass) ↔ (paths ≡ [])
status-pass_iff [] = ((λ h. refl), (λ h. refl))
status-pass_iff (_ ∷ _) = ((λ h. absurd (ground arith)), (λ h. absurd (ground arith)))

-- What holds of a result as it is made, at the result.
at_result :
    {A : Type 0} (P : A → Type 0) {made result : A} → some made ≡ some result → P made → P result
at_result P e = subst P (some_inj.0 e)

module _ (disk : Disk) (root : String) where
  -- The file is not there, or holds a text that the pattern does not hit.
  abbrev pub IsClean : (String → Bool) → String → Type 0
  IsClean hits path =
      (disk.exists (disk.join_path (root ∷ path ∷ [])) ≡ false)
      ⊎ ((text : String) × (disk.read (disk.join_path (root ∷ path ∷ [])) ≡ some text)
          × (hits text ≡ false))

  abbrev pub IsThere : String → Type 0
  IsThere path = disk.exists (disk.join_path (root ∷ path ∷ [])) ≡ true

  hit_paths-nil_iff :
      (hits : String → Bool) (paths found : List String)
      → hit_paths disk root hits paths ≡ some found
      → (found ≡ []) ↔ All (IsClean hits) paths
  unfolding hit_paths
  hit_paths-nil_iff hits [] found h = ((λ e. tt), (λ e. ground arith))
  hit_paths-nil_iff hits (path ∷ paths) found h =
      let (hit, ran, after) = >>=-eq-some _ _ h in
      let (rest, scanned, ended) = >>=-eq-some _ _ after in
      let full_path = disk.join_path (root ∷ path ∷ []) in
      let later = hit_paths-nil_iff hits paths rest scanned in
      let here = hit-clean_iff hits (disk.exists full_path) (disk.read full_path) hit ran in
      add-nil_iff hit path rest found ended here later

  abbrev pub IsPlanOnly : (String → Bool) → Type 0
  IsPlanOnly hits = All (IsClean hits) plan_only_scan_files

  scan_forbidden-pass_iff :
      (item : ForbiddenPattern) (scanned : ForbiddenMaterialization)
      → scan_forbidden disk root item ≡ some scanned
      → (scanned.status ≡ pass) ↔ IsPlanOnly item.hits
  unfolding scan_forbidden
  scan_forbidden-pass_iff item scanned h =
      let (paths, ran, ended) = >>=-eq-some _ _ h in
      let clean = hit_paths-nil_iff item.hits plan_only_scan_files paths ran in
      let status = status-pass_iff paths in
      at_result (λ f. (f.status ≡ pass) ↔ IsPlanOnly item.hits) ended
        ((λ passed. clean.0 (status.0 passed)), (λ plan_only. status.1 (clean.1 plan_only)))

  pub scan_all-pass_iff :
      (items : List ForbiddenPattern) (scanned : List ForbiddenMaterialization)
      → scan_all disk root items ≡ some scanned
      → All (λ (f : ForbiddenMaterialization). f.status ≡ pass) scanned
        ↔ All (λ (item : ForbiddenPattern). IsPlanOnly item.hits) items
  unfolding scan_all
  scan_all-pass_iff [] scanned h =
      at_result (λ found. All (λ (f : ForbiddenMaterialization). f.status ≡ pass) found ↔ Unit) h
        ((λ e. tt), (λ e. tt))
  scan_all-pass_iff (item ∷ items) scanned h =
      let (here, ran, after) = >>=-eq-some _ _ h in
      let (rest, later, ended) = >>=-eq-some _ _ after in
      let first = scan_forbidden-pass_iff item here ran in
      let others = scan_all-pass_iff items rest later in
      at_result
        (λ found.
          All (λ (f : ForbiddenMaterialization). f.status ≡ pass) found
          ↔ All (λ (p : ForbiddenPattern). IsPlanOnly p.hits) (item ∷ items))
        ended ((λ e. (first.0 e.0, others.0 e.1)), (λ e. (first.1 e.0, others.1 e.1)))

  -- A file that is there can be read.
  abbrev pub IsReadable : String → Type 0
  IsReadable path =
      IsThere path → (text : String) × (disk.read (disk.join_path (root ∷ path ∷ [])) ≡ some text)

  hit_paths-returns :
      (hits : String → Bool) (paths : List String)
      → All IsReadable paths
      → (found : List String) × (hit_paths disk root hits paths ≡ some found)
  unfolding hit_paths
  hit_paths-returns hits [] readable = ([], refl)
  hit_paths-returns hits (path ∷ paths) readable =
      let (rest, scanned) = hit_paths-returns hits paths readable.1 in
      elim (Bool-cases (disk.exists (disk.join_path (root ∷ path ∷ [])))) [
        | inl there ↦
            let (text, read) = readable.0 there in
            (if hits text then path ∷ rest else rest, rw there (rw read (rw scanned refl)))
        | inr gone ↦ (rest, rw gone (rw scanned refl))
      ]

  scan_forbidden-returns :
      (item : ForbiddenPattern)
      → All IsReadable plan_only_scan_files
      → (scanned : ForbiddenMaterialization) × (scan_forbidden disk root item ≡ some scanned)
  unfolding scan_forbidden
  scan_forbidden-returns item readable =
      let (paths, hit) = hit_paths-returns item.hits plan_only_scan_files readable in
      (
        record {
          id = item.id;
          description = item.description;
          pattern = item.pattern;
          paths = paths;
          status = outcome (is_nil paths);
        },
        rw hit refl,
      )

  pub scan_all-returns :
      (items : List ForbiddenPattern)
      → All IsReadable plan_only_scan_files
      → (found : List ForbiddenMaterialization) × (scan_all disk root items ≡ some found)
  unfolding scan_all
  scan_all-returns [] readable = ([], refl)
  scan_all-returns (item ∷ items) readable =
      let (here, ran) = scan_forbidden-returns item readable in
      let (rest, scanned) = scan_all-returns items readable in
      (here ∷ rest, rw ran (rw scanned refl))
