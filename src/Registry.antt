-- ===== src/Registry.antt =====
-- graph/loaders: the registries of governance, read from the checked-out `.github` repository. A file
-- that cannot be read, or that is no JSON, throws: the result is `none`.
pub mod Repos
pub mod RepoClasses
pub mod Licenses
pub mod Packages
use admissorium.Prelude.{String, Bool, Option, none, some, List, [], ◌∷◌, if◌then◌else◌}
use admissorium.Js.{Value, Fields, undef, null, obj, arr, str, bool, items, get}
use admissorium.Fallible.{◌>>=◌}

-- Node's part: `join` of `node:path`, `existsSync`, `readFileSync` of a text with `none` where it
-- throws, the names of the directories in a directory, and `JSON.parse`.
pub record Disk : Type 0 where
  pub join_path : List String → String
  pub exists : String → Bool
  pub read : String → Option String
  pub directories : String → Option (List String)
  pub parse_json : String → Option Value

-- the two places where a registry may stand
abbrev pub candidates : Disk → (root file : String) → List String
candidates disk root file =
    disk.join_path (root ∷ ".github" ∷ "governance" ∷ file ∷ [])
    ∷ disk.join_path (root ∷ "governance" ∷ file ∷ [])
    ∷ []

module _ {A : Type 0} (disk : Disk) (absent : A) (parse : (path text : String) → Option A) where
  -- the first place that is there is read, and no other
  unfoldable pub load_first : List String → Option A
  load_first [] = some absent
  load_first (path ∷ paths) =
      let later = load_first paths in
      let here = disk.read path >>= λ text. parse path text in
      if disk.exists path then here else later

abbrev pub array_or_none : Value → List Value
array_or_none (arr vs) = items vs
array_or_none _ = []

-- `parsed.entries`, if it is an array; reading it of `null` throws
unfoldable pub entries_of : Value → Option (List Value)
entries_of undef = none
entries_of null = none
entries_of (obj fields) = some (array_or_none (get fields "entries"))
entries_of _ = some []

abbrev pub is_text : Value → Bool
is_text (str s) = Bool.true
is_text _ = Bool.false

abbrev pub is_boolean : Value → Bool
is_boolean (bool b) = Bool.true
is_boolean _ = Bool.false

-- a field that the type says is a text
abbrev pub text_field : Fields → String → Option String
text_field fields key = elim (get fields key) [ str s ↦ some s | _ ↦ none ]

-- The entries that a guard accepts, each with what the program reads of it.
unfoldable pub accepted {ℓ} : {A : Type ℓ} → (Fields → Option A) → List Value → List A
accepted guard [] = []
accepted guard (v ∷ vs) =
    let rest = accepted guard vs in
    elim v [
      | obj fields ↦ elim (guard fields) [ some entry ↦ entry ∷ rest | none ↦ rest ]
      | _ ↦ rest
    ]
