-- ===== src/Js.antt =====
-- The values of JavaScript that the program inspects without knowing their type (`unknown`,
-- `Record<string, unknown>`), the process environment, and the parts of the platform that are
-- arguments of the model.
use admissorium.Prelude.{
  ℕ, Char, String, ◌≡◌, ◌↔◌, Bool, true, false, not, ◌&&◌, ◌||◌, Option, none, some, List, [], ◌∷◌,
  arith, ◌==◌, eq_iff, nat_eq, if◌then◌else◌,
}
use admissorium.Text.{is_empty}

-- A finite number is its sign, its whole part, and its fraction counted in units of 2^-1074, of
-- which every finite double is a multiple.
pub data Number : Type 0 where
  nan : Number
  infinite : (negative : Bool) → Number
  finite : (negative : Bool) (whole fraction : ℕ) → Number

mutual
  pub data Value : Type 0 where
    undef null : Value
    obj : Fields → Value
    arr : Items → Value
    bool : (b : Bool) → Value
    number : (n : Number) → Value
    str : (s : String) → Value

  -- the entries of an object
  pub data Fields : Type 0 where
    end : Fields
    field : (key : String) → Value → Fields → Fields

  pub data Items : Type 0 where
    no_items : Items
    item : Value → Items → Items

abbrev pub items : Items → List Value
items no_items = []
items (item v vs) = v ∷ items vs

-- `fields[key]`; a key that is missing reads as `undefined`
unfoldable pub get : Fields → String → Value
get end key = undef
get (field k v fs) key = if k == key then v else get fs key

-- `Object.prototype.hasOwnProperty.call(fields, key)`
unfoldable pub has_own : Fields → String → Bool
has_own end key = false
has_own (field k v fs) key = if k == key then true else has_own fs key

-- `v === "s"`, `v === true`, `v === false`
abbrev pub is_str : Value → String → Bool
is_str (str s) t = s == t
is_str _ t = false

abbrev pub is_bool : Value → Bool → Bool
is_bool (bool true) b = b
is_bool (bool false) b = not b
is_bool _ b = false

-- whether a value counts as true in a condition
abbrev pub truthy : Value → Bool
truthy undef = false
truthy null = false
truthy (bool b) = b
truthy (number nan) = false
truthy (number (infinite _)) = true
truthy (number (finite _ whole fraction)) = not (nat_eq whole 0 && nat_eq fraction 0)
truthy (str s) = not (is_empty s)
truthy (arr _) = true
truthy (obj _) = true

pub is_str_iff : (v : Value) (s : String) → (is_str v s ≡ true) ↔ (v ≡ str s)
is_str_iff (str t) s = ground (arith, eq_iff t s)
is_str_iff v s = ground arith

pub is_bool_iff : (v : Value) (b : Bool) → (is_bool v b ≡ true) ↔ (v ≡ bool b)
is_bool_iff (bool true) b = ground arith
is_bool_iff v b = ground arith

-- `process.env`: the variables that are set
abbrev pub Env : Type 0
Env = String → Option String

-- `env.X === "true"`
abbrev pub is_set_to : Option String → String → Bool
is_set_to none s = false
is_set_to (some v) s = v == s

-- `a ?? b`
abbrev pub or_else {ℓ} : {A : Type ℓ} → Option A → A → A
or_else none d = d
or_else (some a) d = a

-- `a ?? b`, where `b` may be missing too
abbrev pub or_also {ℓ} : {A : Type ℓ} → Option A → Option A → Option A
or_also none o = o
or_also (some a) o = some a

-- `a || b` on texts: the empty text is passed over too
abbrev pub or_text : Option String → String → String
or_text none d = d
or_text (some s) d = if is_empty s then d else s

-- the switches of the environment, in the spellings that the actuator's newer parts take
abbrev pub enabled : Option String → Bool
enabled none = false
enabled (some v) = v == "true" || v == "1" || v == "yes"

-- the body of a request: a text, or bytes
pub data RawBody : Type 0 where
  text : String → RawBody
  buffer : List ℕ → RawBody

-- Node's part: the keyed digest of `node:crypto` in hexadecimal, `JSON.parse` with `none` where it
-- throws, the decoding of UTF-8, Unicode's table of small letters, and the process's environment.
pub record Platform : Type 0 where
  pub hmac_sha256_hex : (secret : String) → RawBody → String
  pub parse_json : String → Option Value
  pub decode_utf8 : List ℕ → String
  pub small_letters : Char → String
  pub process_env : Env
