-- ===== src/Gate/Demands.antt =====
-- What a gate demands of the objects it looks at, said as data, beside the checks of the source.
use admissorium.Prelude.{
  String, ◌≡◌, refl, sym, ◌↔◌, Bool, false, not, ◌||◌, Option, none, some, List, [], ◌∷◌, map, ◌++◌,
  arith, All,
}
use mathlib.Core.Path.{subst}
use Prim.{⊥}
use admissorium.Js.{Fields, str, bool, get}
use admissorium.Gate.{Check, fails, differs, is_not, suffix, is_unstated, missing_or, present_and}
use admissorium.Gate.Laws.{
  Pass, Pass-append_iff, differs_iff, is_not_iff, EndsWith, suffix_iff, IsStated, is_unstated_iff,
  or_false_iff, Bound, WhenPresent, missing_or_iff, present_and_iff,
}

pub data Demand : Type 0 where
  -- the field is this text
  says : Fields → (key text : String) → Demand
  -- the field is a text with this ending
  refers : Fields → (key ending : String) → Demand
  -- the field is a text that is not empty
  states : Fields → (key : String) → Demand
  -- these fields are `true`, or all `false`
  sets : Fields → (value : Bool) → (key : String) → (keys : List String) → Demand
  -- the object is there and says this
  bound : Option Fields → (key text : String) → Demand
  -- if the object is there, then it says this, or sets this
  agrees : Option Fields → (key text : String) → Demand
  agrees_on : Option Fields → (key : String) → (value : Bool) → Demand

abbrev pub Meets : Demand → Type 0
Meets (says o key text) = get o key ≡ str text
Meets (refers o key ending) = EndsWith (get o key) ending
Meets (states o key) = IsStated (get o key)
Meets (sets o value key keys) = (get o key ≡ bool value) × All (λ k. get o k ≡ bool value) keys
Meets (bound o key text) = Bound o (λ fields. get fields key ≡ str text)
Meets (agrees o key text) = WhenPresent o (λ fields. get fields key ≡ str text)
Meets (agrees_on o key value) = WhenPresent o (λ fields. get fields key ≡ bool value)

abbrev pub Fulfilled : List Demand → Type 0
Fulfilled = All Meets

-- the condition of the check that goes with `sets`, as the source nests it
abbrev any_is_not : Fields → Bool → Bool → List String → Bool
any_is_not o value found [] = found
any_is_not o value found (key ∷ keys) = any_is_not o value (found || is_not (get o key) value) keys

abbrev pub unmet : Demand → Bool
unmet (says o key text) = differs (get o key) text
unmet (refers o key ending) = not (suffix (get o key) ending)
unmet (states o key) = is_unstated (get o key)
unmet (sets o value key keys) = any_is_not o value (is_not (get o key) value) keys
unmet (bound o key text) = missing_or o (λ fields. differs (get fields key) text)
unmet (agrees o key text) = present_and o (λ fields. differs (get fields key) text)
unmet (agrees_on o key value) = present_and o (λ fields. is_not (get fields key) value)

any_is_not_iff :
    (o : Fields) (value found : Bool) (keys : List String)
    → (any_is_not o value found keys ≡ false)
      ↔ ((found ≡ false) × All (λ key. get o key ≡ bool value) keys)
any_is_not_iff o value found [] = ((λ h. (h, tt)), (λ h. h.0))
any_is_not_iff o value found (key ∷ keys) =
    let rest = any_is_not_iff o value (found || is_not (get o key) value) keys in
    let both = or_false_iff found (is_not (get o key) value) in
    let here = is_not_iff (get o key) value in
    (
      (λ h. let (a, b) = rest.0 h in let (f, k) = both.0 a in (f, (here.0 k, b))),
      (λ h. let (f, (k, b)) = h in rest.1 (both.1 (f, here.1 k), b)),
    )

unmet_iff : (demand : Demand) → (unmet demand ≡ false) ↔ Meets demand
unmet_iff (says o key text) = differs_iff (get o key) text
unmet_iff (refers o key ending) = suffix_iff (get o key) ending
unmet_iff (states o key) = is_unstated_iff (get o key)
unmet_iff (sets o value key keys) =
    let all_iff = any_is_not_iff o value (is_not (get o key) value) keys in
    let here = is_not_iff (get o key) value in
    ((λ h. let (a, b) = all_iff.0 h in (here.0 a, b)), (λ h. all_iff.1 (here.1 h.0, h.1)))
unmet_iff (bound o key text) =
    missing_or_iff (λ fields. differs (get fields key) text) (λ fields. get fields key ≡ str text)
      (λ fields. differs_iff (get fields key) text) o
unmet_iff (agrees o key text) =
    present_and_iff (λ fields. differs (get fields key) text) (λ fields. get fields key ≡ str text)
      (λ fields. differs_iff (get fields key) text) o
unmet_iff (agrees_on o key value) =
    present_and_iff (λ fields. is_not (get fields key) value)
      (λ fields. get fields key ≡ bool value) (λ fields. is_not_iff (get fields key) value) o

-- Checks whose conditions are those of the demands pass exactly if the demands are met.
pub Pass-demands :
    (checks : List Check) (demands : List Demand)
    → map fails checks ≡ map unmet demands
    → Pass checks ↔ Fulfilled demands
Pass-demands [] [] e = ((λ h. tt), (λ h. tt))
Pass-demands [] (demand ∷ demands) e = absurd (ground arith)
Pass-demands (check ∷ checks) [] e = absurd (ground arith)
Pass-demands (check ∷ checks) (demand ∷ demands) e =
    let here = unmet_iff demand in
    let same : fails check ≡ unmet demand = ground arith in
    let rest = Pass-demands checks demands (ground arith) in
    ((λ h. (here.0 (rw (sym same) h.0), rest.0 h.1)), (λ h. (rw same (here.1 h.0), rest.1 h.1)))

-- The same for the checks of an object that must be there.
pub Pass-object :
    (checks : Option Fields → List Check) (demands : Fields → List Demand)
    → (Pass (checks none) → ⊥)
    → ((o : Fields) → map fails (checks (some o)) ≡ map unmet (demands o))
    → (o : Option Fields) → Pass (checks o) ↔ Bound o (λ fields. Fulfilled (demands fields))
Pass-object checks demands missing same none =
    ((λ h. absurd (missing h)), (λ h. absurd (ground arith)))
Pass-object checks demands missing same (some o) =
    let iff = Pass-demands (checks (some o)) (demands o) (same o) in
    (
      (λ h. (o, refl, iff.0 h)),
      (λ h.
          let (other, e, met) = h in
          iff.1 (subst (λ fields. Fulfilled (demands fields)) (ground arith) met)),
    )

-- Checks made one for each element of a list.
pub Pass-each :
    {A : Type 0} (check : A → Check) (P : A → Type 0)
    → ((x : A) → (fails (check x) ≡ false) ↔ P x)
    → (xs : List A) → Pass (map check xs) ↔ All P xs
Pass-each check P iff [] = ((λ h. tt), (λ h. tt))
Pass-each check P iff (x ∷ xs) =
    let here = iff x in
    let rest = Pass-each check P iff xs in
    ((λ h. (here.0 h.0, rest.0 h.1)), (λ h. (here.1 h.0, rest.1 h.1)))

pub Pass-both :
    {P Q : Type 0} (a b : List Check) → Pass a ↔ P → Pass b ↔ Q → Pass (a ++ b) ↔ (P × Q)
Pass-both a b p q =
    let both = Pass-append_iff a b in
    ((λ h. let (ha, hb) = both.0 h in (p.0 ha, q.0 hb)), (λ h. both.1 (p.1 h.0, q.1 h.1)))
