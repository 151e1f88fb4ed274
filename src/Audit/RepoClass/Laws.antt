-- ===== src/Audit/RepoClass/Laws.antt =====
-- When invariants/repo-class-registry.ts is content.
use mathlib.Core.List.{Memᴰ}
use mathlib.Core.Path.{subst}
use admissorium.Prelude.{
  ◌⊎◌, String, ◌==◌, eq_iff, ◌≡◌, refl, sym, ap, ◌↔◌, Bool, true, false, not, Option, none, some,
  List, [], ◌∷◌, ◌++◌, length, ◌≤◌, select, select-nil_iff, map-nil_iff, append-nil_iff, All,
  All-each, All-mem, mem-map, map-mem, mem-select, arith, Bool-cases, inl, inr,
}
use admissorium.Js.{bool, get}
use admissorium.Gate.Laws.{is_not_iff, or_false_iff}
use admissorium.Registry.RepoClasses.{RepoClassEntry}
use admissorium.Grouping.{group}
use admissorium.Grouping.Laws.{keys, values, All-group_iff}
use admissorium.Audit.Perimeter.Laws.{SameElements, no_difference_iff}
use admissorium.Audit.RepoClass.{
  by_repo, repos_of, is_crowded, duplicate_findings, class_perimeter_findings, entry_of, is_miscast,
  role_findings, repo_class_registry_invariant,
}

-- the entries of a repository
abbrev pub entries_for : String → List RepoClassEntry → List RepoClassEntry
entries_for repo entries = select (λ entry. entry.repo == repo) entries

-- No repository has two entries.
abbrev pub OneEntryEach : List RepoClassEntry → Type 0
OneEntryEach entries = All (λ entry. length (entries_for entry.repo entries) ≤ 1) entries

-- ADMISSORIUM is a gate that owns no truth.
pub record IsGate (entry : RepoClassEntry) : Type 0 where
  pub class : entry.class ≡ "admissibility_enforcement_implementation"
  pub role : entry.primary_role ≡ "admission_gate_actuator"
  pub no_chamber : get entry.fields "sovereign_chamber" ≡ bool false
  pub no_truth : get entry.fields "truth_owner" ≡ bool false
  pub no_rewrite : get entry.fields "may_rewrite_current_truth_objects" ≡ bool false

values-by_repo :
    (repo : String) (entries : List RepoClassEntry)
    → values repo (by_repo entries) ≡ entries_for repo entries
values-by_repo repo [] = refl
values-by_repo repo (entry ∷ entries) =
    let rest = values-by_repo repo entries in
    elim (Bool-cases (entry.repo == repo)) [
      | inl hit ↦ rw hit (ap (λ r. entry ∷ r) rest)
      | inr miss ↦ rw miss rest
    ]

keys-by_repo : (entries : List RepoClassEntry) → keys (by_repo entries) ≡ repos_of entries
keys-by_repo [] = refl
keys-by_repo (entry ∷ entries) = ap (λ r. entry.repo ∷ r) (keys-by_repo entries)

crowded_iff :
    (repo : String) (entries : List RepoClassEntry)
    → (is_crowded (repo, values repo (by_repo entries)) ≡ false)
      ↔ (length (entries_for repo entries) ≤ 1)
crowded_iff repo entries = let same = values-by_repo repo entries in rw same (ground arith)

duplicate_findings-nil_iff :
    (entries : List RepoClassEntry) (source_of_truth : String)
    → (duplicate_findings entries source_of_truth ≡ []) ↔ OneEntryEach entries
unfolding duplicate_findings
duplicate_findings-nil_iff entries source_of_truth =
    let none_made = map-nil_iff _ (select is_crowded (group (by_repo entries))) in
    let none_crowded = select-nil_iff is_crowded (group (by_repo entries)) in
    let each = All-group_iff (λ bucket. is_crowded bucket ≡ false) (by_repo entries) in
    (
      (λ h.
          let quiet = each.0 (none_crowded.0 (none_made.0 h)) in
          All-each (λ entry. length (entries_for entry.repo entries) ≤ 1) entries
            (λ entry m.
              let listed : Memᴰ entry.repo (keys (by_repo entries)) =
                rw (keys-by_repo entries) (map-mem (λ e. e.repo) entry entries m) in
              (crowded_iff entry.repo entries).0 (quiet entry.repo listed))),
      (λ h. none_made.1 (
          none_crowded.1 (
            each.1 (λ repo m.
              let named : Memᴰ repo (repos_of entries) = rw (keys-by_repo entries) at m in
              let (entry, listed, e) = mem-map (λ e. e.repo) repo entries named in
              let one = All-mem (λ entry. length (entries_for entry.repo entries) ≤ 1) listed h in
              (crowded_iff repo entries).1 (rw e one))))),
    )

class_perimeter_findings-nil_iff :
    (governed_repos : List String) (entries : List RepoClassEntry) (source_of_truth : String)
    → (class_perimeter_findings governed_repos entries source_of_truth ≡ [])
      ↔ SameElements governed_repos (repos_of entries)
unfolding class_perimeter_findings
class_perimeter_findings-nil_iff governed_repos entries source_of_truth =
    let same = no_difference_iff governed_repos (repos_of entries) in
    ((λ h. same.0 (ground arith)), (λ h. rw (same.1 h)))

not-false : {b : Bool} → not b ≡ false → b ≡ true
not-false {b} h = ground arith

is_miscast_iff : (entry : RepoClassEntry) → (is_miscast entry ≡ false) ↔ IsGate entry
is_miscast_iff entry =
    let a = eq_iff entry.class "admissibility_enforcement_implementation" in
    let b = eq_iff entry.primary_role "admission_gate_actuator" in
    let c = is_not_iff (get entry.fields "sovereign_chamber") false in
    let d = is_not_iff (get entry.fields "truth_owner") false in
    let e = is_not_iff (get entry.fields "may_rewrite_current_truth_objects") false in
    (
      (λ h.
          let (h4, he) = (or_false_iff _ _).0 h in
          let (h3, hd) = (or_false_iff _ _).0 h4 in
          let (h2, hc) = (or_false_iff _ _).0 h3 in
          let (ha, hb) = (or_false_iff _ _).0 h2 in
          record {
            class = a.0 (not-false ha);
            role = b.0 (not-false hb);
            no_chamber = c.0 hc;
            no_truth = d.0 hd;
            no_rewrite = e.0 he;
          }),
      (λ g.
          let class = a.1 g.class in
          let role = b.1 g.role in
          rw (class, role, c.1 g.no_chamber, d.1 g.no_truth, e.1 g.no_rewrite)),
    )

abbrev head : List RepoClassEntry → Option RepoClassEntry
head [] = none
head (entry ∷ entries) = some entry

head_cases :
    (entries : List RepoClassEntry)
    → (entries ≡ []) ⊎ ((entry : RepoClassEntry) × Memᴰ entry entries)
head_cases [] = inl refl
head_cases (entry ∷ entries) = inr (entry, Memᴰ.head refl)

-- What the first entry of a name is.
abbrev WhenFound : Option RepoClassEntry → Type 0
WhenFound none = Unit
WhenFound (some entry) = IsGate entry

role_findings-nil_iff :
    (found : Option RepoClassEntry) (source_of_truth : String)
    → (role_findings found source_of_truth ≡ []) ↔ WhenFound found
unfolding role_findings
role_findings-nil_iff none source_of_truth = ((λ h. tt), (λ h. refl))
role_findings-nil_iff (some entry) source_of_truth =
    let cast = is_miscast_iff entry in ((λ h. cast.0 (ground arith)), (λ g. rw (cast.1 g)))

-- Every entry of ADMISSORIUM is that of a gate.
abbrev pub AdmissoriumIsGate : List RepoClassEntry → Type 0
AdmissoriumIsGate entries =
    (entry : RepoClassEntry)
    → Memᴰ entry (entries_for "Verifrax/ADMISSORIUM" entries)
    → IsGate entry

entry_of-head :
    (repo : String) (entries : List RepoClassEntry)
    → entry_of repo entries ≡ head (entries_for repo entries)
entry_of-head repo [] = refl
entry_of-head repo (entry ∷ entries) = elim (Bool-cases (entry.repo == repo)) [
  | inl hit ↦ rw hit
  | inr miss ↦ rw miss (entry_of-head repo entries)
]

only_element :
    (entries : List RepoClassEntry)
    → length entries ≤ 1
    → WhenFound (head entries) ↔ ((entry : RepoClassEntry) → Memᴰ entry entries → IsGate entry)
only_element [] h = ((λ w entry m. elim m [ ]), (λ w. tt))
only_element (e ∷ []) h = (
  (λ w entry m. elim m [ Memᴰ.head same ↦ subst IsGate (sym same) w | Memᴰ.tail m ↦ elim m [ ] ]),
  (λ w. w e (Memᴰ.head refl)),
)
only_element (e ∷ f ∷ es) h = absurd (omega arith)

one_entry :
    (entries : List RepoClassEntry) (repo : String)
    → OneEntryEach entries
    → length (entries_for repo entries) ≤ 1
one_entry entries repo each = elim (head_cases (entries_for repo entries)) [
  | inl empty ↦ rw empty (omega arith)
  | inr found ↦
      let (listed, named) = mem-select (λ e. e.repo == repo) found.0 entries found.1 in
      let one = All-mem (λ e. length (entries_for e.repo entries) ≤ 1) listed each in
      rw ((eq_iff found.0.repo repo).0 named) at one
]

-- Nothing is found exactly if no repository has two entries, the repositories with an entry are the
-- governed ones, and every entry of ADMISSORIUM is that of a gate that owns no truth.
pub repo_class_registry_invariant-nil_iff :
    (governed_repos : List String) (entries : List RepoClassEntry) (source_of_truth : String)
    → (repo_class_registry_invariant governed_repos entries source_of_truth ≡ []) ↔ (
        OneEntryEach entries
        × SameElements governed_repos (repos_of entries)
        × AdmissoriumIsGate entries)
unfolding repo_class_registry_invariant
repo_class_registry_invariant-nil_iff governed_repos entries source_of_truth =
    let a = duplicate_findings entries source_of_truth in
    let b = class_perimeter_findings governed_repos entries source_of_truth in
    let c = role_findings (entry_of "Verifrax/ADMISSORIUM" entries) source_of_truth in
    let whole = append-nil_iff (a ++ b) c in
    let front = append-nil_iff a b in
    let duplicates = duplicate_findings-nil_iff entries source_of_truth in
    let perimeter = class_perimeter_findings-nil_iff governed_repos entries source_of_truth in
    let role = role_findings-nil_iff (entry_of "Verifrax/ADMISSORIUM" entries) source_of_truth in
    let first = entry_of-head "Verifrax/ADMISSORIUM" entries in
    (
      (λ h.
          let (ab, hc) = whole.0 h in
          let (ha, hb) = front.0 ab in
          let each = duplicates.0 ha in
          let only = only_element _ (one_entry entries "Verifrax/ADMISSORIUM" each) in
          (each, perimeter.0 hb, only.0 (rw first at (role.0 hc)))),
      (λ h.
          let (each, same, gate) = h in
          let only = only_element _ (one_entry entries "Verifrax/ADMISSORIUM" each) in
          let found : WhenFound (entry_of "Verifrax/ADMISSORIUM" entries) =
            rw first (only.1 gate) in
          whole.1 (front.1 (duplicates.1 each, perimeter.1 same), role.1 found)),
    )
