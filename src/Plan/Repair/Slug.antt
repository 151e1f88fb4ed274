-- ===== src/Plan/Repair/Slug.antt =====
-- `slug` of app/projection-repair-pr-plan.ts, which makes a piece of a branch's name of a text.
use admissorium.Prelude.{
  ℕ, zero, suc, Char, code, String, ◌≡◌, refl, Bool, true, false, ◌&&◌, ◌||◌, leb, nat_eq, arith,
  if◌then◌else◌,
}
use admissorium.Text.{is_empty, to_lower_case}

-- the characters `a-z0-9`
abbrev is_kept : ℕ → Bool
is_kept c = leb b'a' c && leb c b'z' || leb b'0' c && leb c b'9'

-- `.replace(/[^a-z0-9]+/g, "-")`; within a run, its dash is already there
dash_runs : (within : Bool) → String → String
dash_runs within String.[] = ""
dash_runs within (String.◌∷◌ c s) =
    let kept = String.◌∷◌ c (dash_runs false s) in
    let rest = dash_runs true s in
    if is_kept (code c) then kept else if within then rest else String.◌∷◌ "-" rest

-- `.replace(/^-+|-+$/g, "")`
drop_dashes : String → String
drop_dashes String.[] = ""
drop_dashes (String.◌∷◌ c s) =
    let rest = drop_dashes s in if nat_eq (code c) b'-' then rest else String.◌∷◌ c s

drop_last_dashes : String → String
drop_last_dashes String.[] = ""
drop_last_dashes (String.◌∷◌ c s) =
    let rest = drop_last_dashes s in
    if is_empty rest && nat_eq (code c) b'-' then "" else String.◌∷◌ c rest

-- `.slice(0, n)`, on a text of ASCII
take_chars : ℕ → String → String
take_chars zero s = ""
take_chars (suc n) String.[] = ""
take_chars (suc n) (String.◌∷◌ c s) = String.◌∷◌ c (take_chars n s)

abbrev or_repair : String → String
or_repair s = if is_empty s then "projection-repair" else s

unfoldable pub slug : (small_letters : Char → String) → String → String
unfolding dash_runs drop_dashes drop_last_dashes take_chars
slug small_letters value = or_repair (
    take_chars 64
      (drop_last_dashes (drop_dashes (dash_runs false (to_lower_case small_letters value)))))

-- only the characters `a-z`, `0-9` and `-`
unfoldable pub is_branch_text : String → Bool
is_branch_text String.[] = true
is_branch_text (String.◌∷◌ c s) = (is_kept (code c) || nat_eq (code c) b'-') && is_branch_text s

dash_runs-branch : (within : Bool) (s : String) → is_branch_text (dash_runs within s) ≡ true
unfolding is_branch_text dash_runs
dash_runs-branch within String.[] = refl
dash_runs-branch within (String.◌∷◌ c s) =
    let kept = dash_runs-branch false s in let rest = dash_runs-branch true s in ground arith

drop_dashes-branch : (s : String) → is_branch_text s ≡ true → is_branch_text (drop_dashes s) ≡ true
unfolding is_branch_text drop_dashes
drop_dashes-branch String.[] h = refl
drop_dashes-branch (String.◌∷◌ c s) h =
    let rest = drop_dashes-branch s (ground arith) in ground arith

drop_last_dashes-branch :
    (s : String) → is_branch_text s ≡ true → is_branch_text (drop_last_dashes s) ≡ true
unfolding is_branch_text drop_last_dashes
drop_last_dashes-branch String.[] h = refl
drop_last_dashes-branch (String.◌∷◌ c s) h =
    let rest = drop_last_dashes-branch s (ground arith) in ground arith

take_chars-branch :
    (n : ℕ) (s : String) → is_branch_text s ≡ true → is_branch_text (take_chars n s) ≡ true
unfolding is_branch_text take_chars
take_chars-branch zero s h = refl
take_chars-branch (suc n) String.[] h = refl
take_chars-branch (suc n) (String.◌∷◌ c s) h =
    let rest = take_chars-branch n s (ground arith) in ground arith

or_repair-branch :
    (s : String)
    → is_branch_text s ≡ true
    → (is_branch_text (or_repair s) ≡ true) × (is_empty (or_repair s) ≡ false)
unfolding is_branch_text
or_repair-branch String.[] h = (refl, refl)
or_repair-branch (String.◌∷◌ c s) h = (h, refl)

-- A slug is never empty and has only small ASCII letters, digits and dashes, whatever it is made of.
slug-branch :
    (small_letters : Char → String) (value : String)
    → (is_branch_text (slug small_letters value) ≡ true)
      × (is_empty (slug small_letters value) ≡ false)
unfolding slug
slug-branch small_letters value = or_repair-branch _ (
    take_chars-branch 64 _ (
      drop_last_dashes-branch _
        (drop_dashes-branch _ (dash_runs-branch false (to_lower_case small_letters value)))))
