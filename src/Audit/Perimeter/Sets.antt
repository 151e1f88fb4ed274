-- ===== src/Audit/Perimeter/Sets.antt =====
-- invariants/repo-perimeter.ts as a comparison of sets of repositories: the abstract view forgets the
-- order of a list and how often it names a repository.
use mathlib.Core.List.{Memᴰ}
use mathlib.Core.Quot
use mathlib.Core.Quot.{Quot, Quot-set}
use Prim.{IsSet}
use admissorium.Prelude.{
  All, Bool-cases, inl, inr, refl, is_nil, ◌&&◌, String, ◌≡◌, ap, ◌↔◌, Bool, true, false, not, List,
  [], includes, includes-mem, mem-includes, mem-select, select-mem, arith,
}
use admissorium.Js.{arr}
use admissorium.Report.{Finding, red}
use admissorium.Audit.{array_of, difference}
use admissorium.Audit.Perimeter.{lacking, repo_perimeter_invariant}
use admissorium.Audit.Perimeter.Laws.{SameElements, Within, repo_perimeter_invariant-nil_iff}

-- Two lists name the same repositories.
abbrev pub SameNames : List String → List String → Type 0
SameNames xs ys = (s : String) → includes xs s ≡ includes ys s

abbrev pub RepoSet : Type 0
RepoSet = Quot SameNames

abbrev pub repo_set : List String → RepoSet
repo_set xs = Quot.mk xs

bool_set : IsSet Bool
bool_set = hlevel

-- whether a repository belongs to a set
pub belongs : String → RepoSet → Bool
belongs s = Quot.lift bool_set (λ xs. includes xs s) (λ xs ys h. h s)

set-SameNames_iff : (xs ys : List String) → (repo_set xs ≡ repo_set ys) ↔ SameNames xs ys
unfolding belongs
set-SameNames_iff xs ys = ((λ e s. ap (belongs s) e), (λ h. Quot.sound h))

one_way :
    (xs ys : List String)
    → Within xs ys
    → (s : String) → includes xs s ≡ true
    → includes ys s ≡ true
one_way xs ys within s h = mem-includes ys s (within s (includes-mem xs s h))

SameNames-elements_iff : (xs ys : List String) → SameElements xs ys ↔ SameNames xs ys
SameNames-elements_iff xs ys = (
  (λ h s. let to = one_way xs ys h.0 s in let back = one_way ys xs h.1 s in ground arith),
  (λ h. (
    (λ s m. let there = mem-includes xs s m in let same = h s in includes-mem ys s (ground arith)),
    (λ s m. let there = mem-includes ys s m in let same = h s in includes-mem xs s (ground arith)),
  )),
)

lacking_iff :
    (wanted present : List String) (s : String)
    → Memᴰ s (lacking wanted present)
      ↔ ((belongs s (repo_set wanted) ≡ true) × (belongs s (repo_set present) ≡ false))
unfolding belongs
lacking_iff wanted present s = (
  (λ m.
      let (listed, kept) = mem-select (λ repo. not (includes present repo)) s wanted m in
      (mem-includes wanted s listed, ground arith)),
  (λ h.
      select-mem (λ repo. not (includes present repo)) s wanted (includes-mem wanted s h.0)
        (let out = h.1 in ground arith)),
)

-- What is found says that the governed repositories were expected, and observed are two lists: those
-- that are missing, the members of the first set outside the second, and those that are extra, the
-- members of the second outside the first.
pub record IsComparison (expected observed : List String) (f : Finding) : Type 0 where
  pub missing : List String
  pub extra : List String
  pub severe : f.severity ≡ red
  pub wanted : f.expected ≡ arr (array_of expected)
  pub found : f.observed ≡ difference missing extra
  pub missing_iff :
      (s : String)
      → Memᴰ s missing
        ↔ ((belongs s (repo_set expected) ≡ true) × (belongs s (repo_set observed) ≡ false))
  pub extra_iff :
      (s : String)
      → Memᴰ s extra
        ↔ ((belongs s (repo_set observed) ≡ true) × (belongs s (repo_set expected) ≡ false))

-- The comparison of lists implements that of sets: nothing is found exactly if the sets are equal, and
-- every finding is red, expects the governed repositories, and observes as missing the members of the
-- first set outside the second, and as extra those of the second outside the first.
pub repo_perimeter_invariant-sets :
    (expected observed : List String)
    → ((repo_perimeter_invariant expected observed ≡ []) ↔ (repo_set expected ≡ repo_set observed))
      × All (IsComparison expected observed) (repo_perimeter_invariant expected observed)
unfolding repo_perimeter_invariant
repo_perimeter_invariant-sets expected observed =
    let same = SameNames-elements_iff expected observed in
    let equal = set-SameNames_iff expected observed in
    let quiet = repo_perimeter_invariant-nil_iff expected observed in
    (
      ((λ h. equal.1 (same.0 (quiet.0 h))), (λ e. quiet.1 (same.1 (equal.0 e)))),
      elim (Bool-cases (is_nil (lacking expected observed) && is_nil (lacking observed expected))) [
        | inl none_found ↦ rw none_found tt
        | inr differs ↦ rw differs (
          record {
            missing = lacking expected observed;
            extra = lacking observed expected;
            severe = refl;
            wanted = refl;
            found = refl;
            missing_iff = lacking_iff expected observed;
            extra_iff = lacking_iff observed expected;
          },
          tt,
        )
      ],
    )
