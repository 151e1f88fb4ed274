-- ===== src/Registry/Repos/Laws.antt =====
-- graph/loaders/governed-repos-loader.ts reads back what stands in a file with one repository a line.
use admissorium.Prelude.{
  String, Char, code, ◌≡◌, refl, ap, ◌∙◌, Bool, true, false, not, ◌&&◌, List, [], ◌∷◌, map, nat_eq,
  starts_with, select, All, arith,
}
use text.Mathlib.TextLemmas.{nil-append, cons-append}
use admissorium.Text.{◌⧺◌, is_empty, trim, join}
use admissorium.Registry.Repos.{split_lines, parse_governed_repos}

abbrev is_newline : Char → Bool
is_newline c = nat_eq (code c) b'\n'

abbrev is_return : Char → Bool
is_return c = nat_eq (code c) b'\r'

-- no character of the text ends a line
abbrev pub is_one_line : String → Bool
is_one_line String.[] = true
is_one_line (String.◌∷◌ c s) =
    not (nat_eq (code c) b'\n') && not (nat_eq (code c) b'\r') && is_one_line s

-- A line that the loader keeps as it is.
pub record IsEntry (line : String) : Type 0 where
  pub one_line : is_one_line line ≡ true
  pub trimmed : trim line ≡ line
  pub filled : is_empty line ≡ false
  pub no_comment : starts_with line "#" ≡ false

split_lines-one : (line : String) → is_one_line line ≡ true → split_lines line ≡ line ∷ []
unfolding split_lines
split_lines-one String.[] h = refl
split_lines-one (String.◌∷◌ c s) h =
    let rest = split_lines-one s (ground arith) in
    let line : is_newline c ≡ false = ground arith in
    let back : is_return c ≡ false = ground arith in rw (line, back, rest)

split_lines-line :
    (line rest : String)
    → is_one_line line ≡ true
    → split_lines (line ⧺ "\n" ⧺ rest) ≡ line ∷ split_lines rest
unfolding split_lines
split_lines-line String.[] rest h = rw (nil-append, cons-append, nil-append)
split_lines-line (String.◌∷◌ c s) rest h =
    let ih = split_lines-line s rest (ground arith) in
    let line : is_newline c ≡ false = ground arith in
    let back : is_return c ≡ false = ground arith in rw (cons-append, line, back, ih)

split_lines-join :
    (line : String) (lines : List String)
    → All IsEntry (line ∷ lines)
    → split_lines (join (line ∷ lines) "\n") ≡ line ∷ lines
split_lines-join line [] h = split_lines-one line h.0.one_line
split_lines-join line (next ∷ lines) h =
    split_lines-line line (join (next ∷ lines) "\n") h.0.one_line
    ∙ ap (λ r. line ∷ r) (split_lines-join next lines h.1)

map-trim : (lines : List String) → All IsEntry lines → map trim lines ≡ lines
map-trim [] h = refl
map-trim (line ∷ lines) h = rw (h.0.trimmed, map-trim lines h.1)

select-filled :
    (lines : List String) → All IsEntry lines → select (λ line. not (is_empty line)) lines ≡ lines
select-filled [] h = refl
select-filled (line ∷ lines) h = rw (h.0.filled, select-filled lines h.1)

select-no_comment :
    (lines : List String)
    → All IsEntry lines
    → select (λ line. not (starts_with line "#")) lines ≡ lines
select-no_comment [] h = refl
select-no_comment (line ∷ lines) h = rw (h.0.no_comment, select-no_comment lines h.1)

-- A list of repositories, each on a line of its own, is read back as it is, if every name is one
-- trimmed line that is not empty and no comment.
pub parse_governed_repos-join :
    (repos : List String) → All IsEntry repos → parse_governed_repos (join repos "\n") ≡ repos
parse_governed_repos-join [] h = unfold parse_governed_repos trim in refl
parse_governed_repos-join (repo ∷ repos) h =
    let all = repo ∷ repos in
    let filled = select (λ line. not (is_empty line)) in
    let stated = select (λ line. not (starts_with line "#")) in
    unfold parse_governed_repos in
    ap (λ lines. stated (filled (map trim lines))) (split_lines-join repo repos h)
    ∙ ap (λ lines. stated (filled lines)) (map-trim all h)
    ∙ ap stated (select-filled all h)
    ∙ select-no_comment all h
