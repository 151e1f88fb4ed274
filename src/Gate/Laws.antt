-- ===== src/Gate/Laws.antt =====
-- The status of a report, and what it takes for the shared checks to pass.
use admissorium.Prelude.{
  String, ◌≡◌, refl, ◌↔◌, Bool, true, false, not, ◌||◌, Option, none, some, List, [], ◌∷◌, ◌++◌,
  any, arith, All, eq_iff,
}
use admissorium.Text.{is_empty, ends_with}
use admissorium.Js.{
  Value, Items, Fields, arr, str, bool, items, get, has_own, is_str, is_str_iff, is_bool_iff,
  truthy,
}
use admissorium.Gate.{
  green, red, Check, findings_of, is_red, status_of, report, fails, red_if, yellow_if, differs,
  is_not, suffix, is_unstated, missing_or, present_and, projection_checks, claim_class_of,
  claim_classes, class_checks, chain_checks,
}

-- the checks that pass
abbrev pub Pass : List Check → Type 0
Pass = All (λ check. fails check ≡ false)

pub Pass-append_iff : (xs ys : List Check) → Pass (xs ++ ys) ↔ (Pass xs × Pass ys)
Pass-append_iff [] ys = ((λ h. (tt, h)), (λ h. h.1))
Pass-append_iff (x ∷ xs) ys =
    let rest = Pass-append_iff xs ys in
    ((λ h. let (a, b) = rest.0 h.1 in ((h.0, a), b)), (λ h. (h.0.0, rest.1 (h.0.1, h.1))))

findings_of-nil : (checks : List Check) → Pass checks → findings_of checks ≡ []
findings_of-nil [] h = refl
findings_of-nil (check ∷ checks) h = rw (h.0, findings_of-nil checks h.1)

findings_of-nothing : (checks : List Check) → findings_of checks ≡ [] → Pass checks
findings_of-nothing [] h = tt
findings_of-nothing (red_if false code message ∷ checks) h = (refl, findings_of-nothing checks h)
findings_of-nothing (yellow_if false code message ∷ checks) h = (refl, findings_of-nothing checks h)
findings_of-nothing (red_if true code message ∷ checks) h = absurd (ground arith)
findings_of-nothing (yellow_if true code message ∷ checks) h = absurd (ground arith)

-- Nothing is found exactly if every check passes.
pub findings_of-nil_iff : (checks : List Check) → (findings_of checks ≡ []) ↔ Pass checks
findings_of-nil_iff checks = (findings_of-nothing checks, findings_of-nil checks)

status_of-passes : (checks : List Check) → status_of (findings_of checks) ≡ green → Pass checks
unfolding status_of
status_of-passes [] h = tt
status_of-passes (red_if false code message ∷ checks) h = (refl, status_of-passes checks h)
status_of-passes (yellow_if false code message ∷ checks) h = (refl, status_of-passes checks h)
status_of-passes (red_if true code message ∷ checks) h = absurd (ground arith)
status_of-passes (yellow_if true code message ∷ checks) h = absurd (ground arith)

-- A report is green exactly if every check passes.
pub report-green_iff :
    (gate : String) (checks : List Check) → ((report gate checks).status ≡ green) ↔ Pass checks
unfolding report status_of
report-green_iff gate checks = (status_of-passes checks, λ h. rw (findings_of-nil checks h))

-- a red check that fails
abbrev pub blocks : Check → Bool
blocks (red_if condition code message) = condition
blocks (yellow_if condition code message) = false

pub any-is_red : (checks : List Check) → any is_red (findings_of checks) ≡ any blocks checks
any-is_red [] = refl
any-is_red (red_if true code message ∷ checks) = refl
any-is_red (red_if false code message ∷ checks) = any-is_red checks
any-is_red (yellow_if true code message ∷ checks) = any-is_red checks
any-is_red (yellow_if false code message ∷ checks) = any-is_red checks

-- A report is red exactly if a red check fails.
report-red_iff :
    (gate : String) (checks : List Check)
    → ((report gate checks).status ≡ red) ↔ (any blocks checks ≡ true)
unfolding report status_of
report-red_iff gate checks = let same = any-is_red checks in ground (arith, same)

pub differs_iff : (v : Value) (s : String) → (differs v s ≡ false) ↔ (v ≡ str s)
differs_iff v s = let h = is_str_iff v s in ground (arith, h)

pub is_not_iff : (v : Value) (b : Bool) → (is_not v b ≡ false) ↔ (v ≡ bool b)
is_not_iff v b = let h = is_bool_iff v b in ground (arith, h)

-- a text with this ending
abbrev pub EndsWith : Value → String → Type 0
EndsWith v ending = (t : String) × (v ≡ str t) × (ends_with t ending ≡ true)

pub suffix_iff : (v : Value) (ending : String) → (not (suffix v ending) ≡ false) ↔ EndsWith v ending
suffix_iff v ending = (sound v, complete v)
  where
    sound : (v : Value) → not (suffix v ending) ≡ false → EndsWith v ending
    sound (str s) h = (s, refl, ground arith)
    sound _ h = absurd (ground arith)

    complete : (v : Value) → EndsWith v ending → not (suffix v ending) ≡ false
    complete v (t, e, h) = rw (e, h)

-- a text that is not empty
abbrev pub IsStated : Value → Type 0
IsStated v = (t : String) × (v ≡ str t) × (is_empty t ≡ false)

pub is_unstated_iff : (v : Value) → (is_unstated v ≡ false) ↔ IsStated v
is_unstated_iff v = (sound v, complete v)
  where
    sound : (v : Value) → is_unstated v ≡ false → IsStated v
    sound (str s) h = (s, refl, h)
    sound _ h = absurd (ground arith)

    complete : (v : Value) → IsStated v → is_unstated v ≡ false
    complete v (t, e, h) = rw (e, h)

pub or_false_iff : (a b : Bool) → ((a || b) ≡ false) ↔ ((a ≡ false) × (b ≡ false))
or_false_iff a b = ground arith

-- An object that is there, and what holds of it.
abbrev pub Bound : Option Fields → (Fields → Type 0) → Type 0
Bound o P = (fields : Fields) × (o ≡ some fields) × P fields

-- What holds of an object if it is there.
abbrev pub WhenPresent : Option Fields → (Fields → Type 0) → Type 0
WhenPresent none P = Unit
WhenPresent (some fields) P = P fields

module _ (fails_on : Fields → Bool) (P : Fields → Type 0)
    (iff : (fields : Fields) → (fails_on fields ≡ false) ↔ P fields) where
  pub missing_or_iff : (o : Option Fields) → (missing_or o fails_on ≡ false) ↔ Bound o P
  missing_or_iff none = ground arith
  missing_or_iff (some fields) = (
    (λ h. (fields, refl, (iff fields).0 h)),
    λ p. let (f, e, q) = p in let h = (iff f).1 q in ground arith,
  )

  pub present_and_iff : (o : Option Fields) → (present_and o fails_on ≡ false) ↔ WhenPresent o P
  present_and_iff none = ((λ h. tt), (λ h. refl))
  present_and_iff (some fields) = iff fields

-- No key of the list is the projection's own.
abbrev pub AddsNone : List String → Fields → Type 0
AddsNone keys projection = All (λ key. has_own projection key ≡ false) keys

pub projection_checks_iff :
    (o : Option Fields) (keys : List String) (code message : String)
    → Pass (projection_checks o keys code message) ↔ WhenPresent o (AddsNone keys)
unfolding projection_checks
projection_checks_iff none keys code message = ((λ h. tt), (λ h. tt))
projection_checks_iff (some projection) [] code message = ((λ h. tt), (λ h. tt))
projection_checks_iff (some projection) (key ∷ keys) code message =
    let rest = projection_checks_iff (some projection) keys code message in
    ((λ h. (h.0, rest.0 h.1)), (λ h. (h.0, rest.1 h.1)))

-- If the lock has a chain, one of its items has the claim class.
abbrev pub Exposes : String → Fields → Type 0
Exposes claim_class lock =
    (chain : Items)
    → get lock "chain" ≡ arr chain
    → any (λ item. is_str (claim_class_of item) claim_class) (items chain) ≡ true

-- A class that is a text with characters counts as true in a condition.
is_str-truthy : (v : Value) (s : String) → is_empty s ≡ false → is_str v s ≡ true → truthy v ≡ true
is_str-truthy (str t) s h e = let p = (eq_iff t s).0 e in rw (p, h)
is_str-truthy _ s h e = absurd (ground arith)

any-claim_classes :
    (s : String)
    → is_empty s ≡ false
    → (vs : List Value)
    → any (λ class. is_str class s) (claim_classes vs)
      ≡ any (λ item. is_str (claim_class_of item) s) vs
any-claim_classes s h [] = refl
any-claim_classes s h (v ∷ vs) =
    let rest = any-claim_classes s h vs in
    let kept = is_str-truthy (claim_class_of v) s h in ground arith

exposes_iff :
    (v : Value) (claim_class code message : String)
    → is_empty claim_class ≡ false
    → Pass (class_checks v claim_class code message) ↔ (
        (chain : Items)
        → v ≡ arr chain
        → any (λ item. is_str (claim_class_of item) claim_class) (items chain) ≡ true)
exposes_iff (arr chain) claim_class code message h =
    let same = any-claim_classes claim_class h (items chain) in
    (
      (λ pass others e.
          let shown = pass.0 in let p : others ≡ chain = ground arith in rw p (ground arith)),
      (λ exposed. let there = exposed chain refl in (ground arith, tt)),
    )
exposes_iff _ claim_class code message h =
    ((λ pass chain e. absurd (ground arith)), (λ exposed. tt))

pub chain_checks_iff :
    (o : Option Fields) (claim_class code message : String)
    → is_empty claim_class ≡ false
    → Pass (chain_checks o claim_class code message) ↔ WhenPresent o (Exposes claim_class)
unfolding chain_checks
chain_checks_iff none claim_class code message h = ((λ pass. tt), (λ present. tt))
chain_checks_iff (some lock) claim_class code message h =
    exposes_iff (get lock "chain") claim_class code message h

-- The report of four lists of checks, of each of which it is known what it asks.
pub four_iff :
    {P Q R S : Type 0} (gate : String) (a b c d : List Check)
    → Pass a ↔ P
    → Pass b ↔ Q
    → Pass c ↔ R
    → Pass d ↔ S
    → ((report gate (a ++ b ++ c ++ d)).status ≡ green) ↔ (P × Q × R × S)
four_iff gate a b c d p q r s =
    let whole = report-green_iff gate (a ++ b ++ c ++ d) in
    let third = Pass-append_iff (a ++ b ++ c) d in
    let second = Pass-append_iff (a ++ b) c in
    let first = Pass-append_iff a b in
    (
      (λ h.
          let (habc, hd) = third.0 (whole.0 h) in
          let (hab, hc) = second.0 habc in
          let (ha, hb) = first.0 hab in (p.0 ha, q.0 hb, r.0 hc, s.0 hd)),
      (λ h.
          let (hp, hq, hr, hs) = h in
          whole.1 (third.1 (second.1 (first.1 (p.1 hp, q.1 hq), r.1 hr), s.1 hs))),
    )
