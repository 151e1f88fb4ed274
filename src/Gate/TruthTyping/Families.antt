-- ===== src/Gate/TruthTyping/Families.antt =====
-- The object families that src/admission/assert-active-historical-truth-typing-required.ts reads.
use mathlib.Core.List.{Memᴰ}
use mathlib.Core.Path.{subst}
use admissorium.Prelude.{
  suc, ◌≤◌, String, ◌==◌, eq_iff, eq_refl, ◌≡◌, refl, ap, ◌↔◌, true, false, not, List, [], ◌∷◌,
  ◌++◌, length, All, includes, arith, Bool-cases, inl, inr, ◌+◌, Option, none, some, ◌⊎◌,
}
use admissorium.Js.{Value, Items, Fields, str, arr, obj, items, get}
use admissorium.Grouping.{unique, unique_from}
use admissorium.Grouping.Laws.{IsDistinct, includes-append_one_eq}
use admissorium.Gate.TruthTyping.{
  text_of, object_family, kept, families, current_truth_families, has_duplicate,
}

-- The entry is an object of this family.
abbrev pub IsOf : String → Value → Type 0
IsOf family v = (entry : Fields) × (v ≡ obj entry) × (get entry "object_family" ≡ str family)

-- The value is an array, and one of its objects is of this family.
abbrev pub HasFamily : Value → String → Type 0
HasFamily v family =
    (vs : Items) × (v ≡ arr vs) × (entry : Value) × Memᴰ entry (items vs) × IsOf family entry

text_of_iff : (v : Value) (s : String) → (text_of v ≡ some s) ↔ (v ≡ str s)
text_of_iff (str t) s = ground arith
text_of_iff v s = ground arith

object_family_iff : (v : Value) (family : String) → (object_family v ≡ some family) ↔ IsOf family v
object_family_iff (obj entry) family =
    let text = text_of_iff (get entry "object_family") family in
    (
      (λ h. (entry, refl, text.0 h)),
      (λ h.
          let (other, e, is) = h in
          let same : other ≡ entry = ground arith in text.1 (rw same at is)),
    )
object_family_iff v family =
    ((λ h. absurd (ground arith)), (λ h. let (entry, e, is) = h in absurd (ground arith)))

includes-kept :
    (o : Option String) (rest : List String) (s : String)
    → (includes (kept o rest) s ≡ true) ↔ ((o ≡ some s) ⊎ (includes rest s ≡ true))
includes-kept none rest s =
    ((λ h. inr h), (λ h. elim h [ inl e ↦ absurd (ground arith) | inr later ↦ later ]))
includes-kept (some t) rest s =
    let same = eq_iff t s in
    (
      (λ h. elim (Bool-cases (t == s)) [
        | inl hit ↦ inl (ap some (same.0 hit))
        | inr miss ↦ inr (ground arith)
      ]),
      (λ h. elim h [
        | inl e ↦ let hit = same.1 (ground arith) in ground arith
        | inr later ↦ ground arith
      ]),
    )

includes-families_iff :
    (family : String) (vs : List Value)
    → (includes (families vs) family ≡ true) ↔ ((entry : Value) × Memᴰ entry vs × IsOf family entry)
includes-families_iff family [] =
    ((λ h. absurd (ground arith)), (λ h. let (entry, m, is) = h in elim m [ ]))
includes-families_iff family (v ∷ vs) =
    let here = object_family_iff v family in
    let rest = includes-families_iff family vs in
    let split = includes-kept (object_family v) (families vs) family in
    (
      (λ h. elim (split.0 h) [
        | inl e ↦ (v, Memᴰ.head refl, here.0 e)
        | inr later ↦ let (entry, m, is) = rest.0 later in (entry, Memᴰ.tail m, is)
      ]),
      (λ h.
          let (entry, m, is) = h in
          split.1 (elim m [
            | Memᴰ.head e ↦ inl (here.1 (subst (IsOf family) e is))
            | Memᴰ.tail later ↦ inr (rest.1 (entry, later, is))
          ])),
    )

-- A family is read exactly if the value is an array with an object of this family.
pub current_truth_families_iff :
    (v : Value) (family : String)
    → (not (includes (current_truth_families v) family) ≡ false) ↔ HasFamily v family
current_truth_families_iff (arr vs) family =
    let iff = includes-families_iff family (items vs) in
    (
      (λ h. let (entry, m, is) = iff.0 (ground arith) in (vs, refl, entry, m, is)),
      (λ h.
          let (ws, e, entry, m, is) = h in
          let same : ws ≡ vs = ground arith in
          let there = iff.1 (entry, subst (λ us. Memᴰ entry (items us)) same m, is) in
          ground arith),
    )
current_truth_families_iff v family =
    ((λ h. absurd (ground arith)), (λ h. let (ws, e, entry, m, is) = h in absurd (ground arith)))

length-append_one : {A : Type 0} (xs : List A) (x : A) → length (xs ++ x ∷ []) ≡ suc (length xs)
length-append_one [] x = refl
length-append_one (y ∷ ys) x = ap suc (length-append_one ys x)

length-unique_from :
    (seen xs : List String) → length (unique_from seen xs) ≤ length seen + length xs
unfolding unique_from
length-unique_from seen [] = omega arith
length-unique_from seen (x ∷ xs) = elim (Bool-cases (includes seen x)) [
  | inl old ↦ rw old (let rest = length-unique_from seen xs in omega arith)
  | inr new ↦ rw new (
      let rest = length-unique_from (seen ++ x ∷ []) xs in
      let longer = length-append_one seen x in omega arith)
]

-- None of the texts of the second list stands in the first.
abbrev Apart : List String → List String → Type 0
Apart seen xs = All (λ x. includes seen x ≡ false) xs

Apart-step_iff :
    (seen xs : List String) (x : String)
    → Apart (seen ++ x ∷ []) xs ↔ (Apart seen xs × (includes xs x ≡ false))
Apart-step_iff seen [] x = ((λ h. (tt, refl)), (λ h. tt))
Apart-step_iff seen (y ∷ ys) x =
    let rest = Apart-step_iff seen ys x in
    let here = includes-append_one_eq seen x y in
    let same : (x == y) ≡ (y == x) = ground (arith, eq_iff x y, eq_iff y x, eq_refl x) in
    (
      (λ h.
          let (apart, fresh) = rest.0 h.1 in
          let head = h.0 in ((ground arith, apart), ground arith)),
      (λ h. let ((head, apart), fresh) = h in (ground arith, rest.1 (apart, ground arith))),
    )

length-unique_from_iff :
    (xs seen : List String)
    → (length (unique_from seen xs) ≡ length seen + length xs) ↔ (Apart seen xs × IsDistinct xs)
unfolding unique_from
length-unique_from_iff [] seen = ((λ h. (tt, tt)), (λ h. omega arith))
length-unique_from_iff (x ∷ xs) seen = elim (Bool-cases (includes seen x)) [
  | inl old ↦ rw old (
      let short = length-unique_from seen xs in
      ((λ h. absurd (omega arith)), (λ h. let head = h.0.0 in absurd (ground arith))))
  | inr new ↦ rw new (
      let rest = length-unique_from_iff xs (seen ++ x ∷ []) in
      let step = Apart-step_iff seen xs x in
      let longer = length-append_one seen x in
      (
        (λ h.
            let (apart, distinct) = rest.0 (omega arith) in
            let (before, fresh) = step.0 apart in ((refl, before), (fresh, distinct))),
        (λ h.
            let ((head, before), (fresh, distinct)) = h in
            let whole = rest.1 (step.1 (before, fresh), distinct) in omega arith),
      ))
]

Apart-nil : (xs : List String) → Apart [] xs
Apart-nil [] = tt
Apart-nil (x ∷ xs) = (refl, Apart-nil xs)

pub has_duplicate_iff : (xs : List String) → (has_duplicate xs ≡ false) ↔ IsDistinct xs
unfolding has_duplicate unique
has_duplicate_iff xs =
    let counted = length-unique_from_iff xs [] in
    (
      (λ h. (counted.0 (ground arith)).1),
      (λ h. let same = counted.1 (Apart-nil xs, h) in ground arith),
    )
