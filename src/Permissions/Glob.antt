-- ===== src/Permissions/Glob.antt =====
-- `globToRegExp` of app/permissions.ts, and the regular expressions that it builds.
--
-- The four replacements are run on the text as the source runs them. What they can build is a small
-- part of the syntax: escaped characters, `.`, `[^/]`, and the quantifiers `*` and `?`, of which
-- `?` comes from a `?` of the glob, since it is not escaped. A quantifier with nothing to repeat is
-- a `SyntaxError`, here `none`.
use admissorium.Prelude.{
  ℕ, zero, suc, Char, code, String, Bool, true, false, not, ◌&&◌, ◌||◌, Option, none, some, List,
  [], ◌∷◌, nat_eq, if◌then◌else◌,
}
use admissorium.Text.{◌⧺◌, replace_all}
use mathlib.Core.Option

-- one character of a regular expression: a literal, `.` or `[^/]`
pub data Atom : Type 0 where
  lit : Char → Atom
  dot : Atom
  segment : Atom

pub data Token : Type 0 where
  atom : Atom → Token
  star : Token
  quest : Token

pub data Piece : Type 0 where
  one : Atom → Piece
  many : Atom → Piece
  optional : Atom → Piece

-- /[.+^${}()|[\]\\]/
is_special : ℕ → Bool
is_special c =
    nat_eq c b'.'
    || nat_eq c b'+'
    || nat_eq c b'^'
    || nat_eq c b'$'
    || nat_eq c b'{'
    || nat_eq c b'}'
    || nat_eq c b'('
    || nat_eq c b')'
    || nat_eq c b'|'
    || nat_eq c b'['
    || nat_eq c b']'
    || nat_eq c 92

escape : String → String
escape String.[] = ""
escape (String.◌∷◌ c s) = (if is_special (code c) then "\\" else "") ⧺ String.◌∷◌ c (escape s)

abbrev token : String
token = "__DOUBLE_STAR__"

-- the text that is given to `new RegExp`, between `^` and `$`
pub regexp_source : String → String
unfolding escape is_special replace_all
regexp_source glob =
    replace_all token ".*" (replace_all "*" "[^/]*" (escape (replace_all "**" token glob)))

-- How `RegExp` reads such a text; `k` characters of a `[^/]` are still to be passed over.
lex : ℕ → String → List Token
lex k String.[] = []
lex (suc k) (String.◌∷◌ c s) = lex k s
lex zero (String.◌∷◌ c String.[]) =
    (if nat_eq (code c) b'*'
      then star
      else if nat_eq (code c) b'?'
      then quest
      else if nat_eq (code c) b'.'
      then atom dot
      else atom (lit c))
    ∷ []
lex zero (String.◌∷◌ c (String.◌∷◌ d s)) =
    let escaped = atom (lit d) ∷ lex zero s in
    let bracket = atom segment ∷ lex 3 (String.◌∷◌ d s) in
    let repeated = star ∷ lex zero (String.◌∷◌ d s) in
    let queried = quest ∷ lex zero (String.◌∷◌ d s) in
    let dotted = atom dot ∷ lex zero (String.◌∷◌ d s) in
    let plain = atom (lit c) ∷ lex zero (String.◌∷◌ d s) in
    if nat_eq (code c) 92
    then escaped
    else if nat_eq (code c) b'['
    then bracket
    else if nat_eq (code c) b'*'
    then repeated
    else if nat_eq (code c) b'?'
    then queried
    else if nat_eq (code c) b'.'
    then dotted
    else plain

abbrev and_then : Piece → Option (List Piece) → Option (List Piece)
and_then p ps = Option.map (λ r. p ∷ r) ps

-- a `?` behind a quantifier makes it lazy, which changes nothing in a test
pieces : List Token → Option (List Piece)
pieces [] = some []
pieces (star ∷ _) = none
pieces (quest ∷ _) = none
pieces (atom a ∷ star ∷ quest ∷ r) = and_then (many a) (pieces r)
pieces (atom a ∷ star ∷ r) = and_then (many a) (pieces r)
pieces (atom a ∷ quest ∷ quest ∷ r) = and_then (optional a) (pieces r)
pieces (atom a ∷ quest ∷ r) = and_then (optional a) (pieces r)
pieces (atom a ∷ r) = and_then (one a) (pieces r)

-- `globToRegExp(glob)`
unfoldable pub glob_to_regexp : String → Option (List Piece)
unfolding regexp_source lex pieces
glob_to_regexp glob = pieces (lex zero (regexp_source glob))

-- `.` matches all but the ends of lines
abbrev pub is_line_end : ℕ → Bool
is_line_end c = nat_eq c 10 || nat_eq c 13 || nat_eq c 0x2028 || nat_eq c 0x2029

abbrev pub accepts : Atom → Char → Bool
accepts (lit d) c = nat_eq (code c) (code d)
accepts dot c = not (is_line_end (code c))
accepts segment c = not (nat_eq (code c) b'/')

-- `RegExp.test`, anchored at both ends
unfoldable pub test : List Piece → String → Bool
test [] String.[] = true
test [] (String.◌∷◌ c s) = false
test (one a ∷ ps) String.[] = false
test (one a ∷ ps) (String.◌∷◌ c s) = accepts a c && test ps s
test (optional a ∷ ps) String.[] = test ps String.[]
test (optional a ∷ ps) (String.◌∷◌ c s) = test ps (String.◌∷◌ c s) || accepts a c && test ps s
test (many a ∷ ps) String.[] = test ps String.[]
test (many a ∷ ps) (String.◌∷◌ c s) =
    test ps (String.◌∷◌ c s) || accepts a c && test (many a ∷ ps) s
