-- ===== src/Text.antt =====
-- The methods of JavaScript's `String` that the program calls.
--
-- A text is a list of code points; the lone surrogates that JavaScript allows are left out. Case
-- mapping is computed for ASCII; the rest of Unicode's table is an argument.
pub mod Laws
use admissorium.Prelude.{
  ℕ, zero, suc, ◌+◌, ◌-◌, Char, code, String, Bool, true, false, ◌&&◌, ◌||◌, ◌==◌, starts_with,
  Option, none, some, List, [], ◌∷◌, leb, ltb, nat_eq, if◌then◌else◌,
}
use Prim.Native.Nat.{◌/◌, ◌%◌}
use Prim.Native.String
use Prim.Native.String.{count}

abbrev pub is_empty : String → Bool
is_empty String.[] = true
is_empty (String.◌∷◌ c s) = false

infixr 70 ◌⧺◌
abbrev pub ◌⧺◌ : String → String → String
s ⧺ t = String.◌++◌ s t

-- `s.endsWith(t)`
unfoldable pub ends_with : String → String → Bool
ends_with String.[] t = "" == t
ends_with (String.◌∷◌ c s) t = String.◌∷◌ c s == t || ends_with s t

-- `s.includes(t)`
unfoldable pub contains : String → String → Bool
contains String.[] t = "" == t
contains (String.◌∷◌ c s) t = starts_with (String.◌∷◌ c s) t || contains s t

-- `s.slice(n)`, where what is cut off is ASCII
abbrev pub drop_chars : ℕ → String → String
drop_chars zero s = s
drop_chars (suc n) String.[] = ""
drop_chars (suc n) (String.◌∷◌ c s) = drop_chars n s

-- `s.replaceAll(from, to)`, for a `from` that is not empty; `k` characters are still to be skipped
replace_at : String → String → ℕ → String → String
replace_at from to k String.[] = ""
replace_at from to (suc k) (String.◌∷◌ c s) = replace_at from to k s
replace_at from to zero (String.◌∷◌ c s) =
    let hit = to ⧺ replace_at from to (count from - 1) s in
    let miss = String.◌∷◌ c (replace_at from to zero s) in
    if starts_with (String.◌∷◌ c s) from then hit else miss

unfoldable pub replace_all : String → String → String → String
unfolding replace_at
replace_all from to s = replace_at from to zero s

-- the UTF-16 code units of a text, `s.length`
unfoldable pub utf16_length : String → ℕ
utf16_length String.[] = 0
utf16_length (String.◌∷◌ c s) = (if ltb (code c) 0x10000 then 1 else 2) + utf16_length s

-- white space and line ends, as `trim` takes them off
unfoldable pub is_blank : ℕ → Bool
is_blank c =
    leb 9 c && leb c 13
    || nat_eq c 0x20
    || nat_eq c 0xa0
    || nat_eq c 0x1680
    || leb 0x2000 c && leb c 0x200a
    || nat_eq c 0x2028
    || nat_eq c 0x2029
    || nat_eq c 0x202f
    || nat_eq c 0x205f
    || nat_eq c 0x3000
    || nat_eq c 0xfeff

trim_start : String → String
trim_start String.[] = ""
trim_start (String.◌∷◌ c s) =
    let rest = trim_start s in if is_blank (code c) then rest else String.◌∷◌ c s

trim_end : String → String
trim_end String.[] = ""
trim_end (String.◌∷◌ c s) =
    let rest = trim_end s in if is_empty rest && is_blank (code c) then "" else String.◌∷◌ c rest

-- `s.trim()`
unfoldable pub trim : String → String
unfolding trim_start trim_end is_blank
trim s = trim_end (trim_start s)

upper_letters : String
upper_letters = "ABCDEFGHIJKLMNOPQRSTUVWXYZ"

lower_letters : String
lower_letters = "abcdefghijklmnopqrstuvwxyz"

-- the letter at a place of an alphabet
letter : ℕ → String → String
letter n String.[] = ""
letter zero (String.◌∷◌ c s) = String.◌∷◌ c ""
letter (suc n) (String.◌∷◌ c s) = letter n s

-- Both case mappings work character by character; `others` is the table above ASCII.
module _ (others : Char → String) where
  upper_char : Char → String
  upper_char c =
      if leb b'a' (code c) && leb (code c) b'z'
      then letter (code c - b'a') upper_letters
      else if ltb (code c) 128
      then String.◌∷◌ c ""
      else others c

  lower_char : Char → String
  lower_char c =
      if leb b'A' (code c) && leb (code c) b'Z'
      then letter (code c - b'A') lower_letters
      else if ltb (code c) 128
      then String.◌∷◌ c ""
      else others c

  -- `s.toUpperCase()`
  unfoldable pub to_upper_case : String → String
  unfolding upper_char letter upper_letters
  to_upper_case String.[] = ""
  to_upper_case (String.◌∷◌ c s) = upper_char c ⧺ to_upper_case s

  -- `s.toLowerCase()`
  unfoldable pub to_lower_case : String → String
  unfolding lower_char letter lower_letters
  to_lower_case String.[] = ""
  to_lower_case (String.◌∷◌ c s) = lower_char c ⧺ to_lower_case s

-- what is left behind a word, if the text begins with it; a regular expression with the flag `i`
-- compares characters after `Canonicalize`, of which `canonical` is the table above ASCII
abbrev pub strip_word : (canonical : Char → String) → (word text : String) → Option String
strip_word canonical String.[] s = some s
strip_word canonical (String.◌∷◌ w word) String.[] = none
strip_word canonical (String.◌∷◌ w word) (String.◌∷◌ c s) =
    let rest = strip_word canonical word s in
    if to_upper_case canonical (String.◌∷◌ c "") == to_upper_case canonical (String.◌∷◌ w "")
    then rest
    else none

-- `\s*`
abbrev pub skip_blanks : String → String
skip_blanks String.[] = ""
skip_blanks (String.◌∷◌ c s) =
    let rest = skip_blanks s in if is_blank (code c) then rest else String.◌∷◌ c s

-- `parts.join(separator)`
abbrev pub join : List String → String → String
join [] separator = ""
join (part ∷ []) separator = part
join (part ∷ (next ∷ parts)) separator = part ⧺ separator ⧺ join (next ∷ parts) separator

-- the first piece, and the pieces after it, when a text is cut at a character
split_from : ℕ → String → List String
split_from at String.[] = "" ∷ []
split_from at (String.◌∷◌ c s) = elim (split_from at s) [
  | [] ↦ []
  | piece ∷ pieces ↦ if nat_eq (code c) at then "" ∷ piece ∷ pieces else String.◌∷◌ c piece ∷ pieces
]

-- `s.split(separator)`, for a separator of one character, given by its code
unfoldable pub split : String → ℕ → List String
unfolding split_from
split s at = split_from at s

decimal_digits : String
decimal_digits = "0123456789"

-- the digits of a number below `10 ^ fuel`
print_digits : (fuel : ℕ) → ℕ → String
unfolding letter decimal_digits
print_digits zero n = ""
print_digits (suc fuel) n =
    let front = print_digits fuel (n / 10) in
    (if ltb n 10 then "" else front) ⧺ letter (n % 10) decimal_digits

-- A natural number in a template literal. A number has fewer digits than its value plus one.
unfoldable pub print_count : ℕ → String
unfolding print_digits
print_count n = print_digits (suc n) n
