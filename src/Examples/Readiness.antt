-- ===== src/Examples/Readiness.antt =====
-- The readiness of the actuator on a disk where every file holds the same text.
use admissorium.Prelude.{
  All, ◌≡◌, refl, ◌↔◌, Bool, true, false, Option, none, some, List, [], ◌∷◌, map, Char, String,
}
use admissorium.Text.{join, to_upper_case, contains, is_blank}
use admissorium.Fallible.{◌>>=◌}
use admissorium.Registry.{Disk}
use admissorium.Readiness.Actuator.{
  plan_only_scan_files, ActuatorReadiness, ForbiddenMaterialization, ForbiddenPattern,
  build_actuator_readiness, scan_all, scan_forbidden, hit_paths, forbidden_patterns,
}
use admissorium.Readiness.Actuator.Scan.{IsReadable}
use admissorium.Readiness.Actuator.Laws.{IsActuatorReady, build_actuator_readiness-ready_iff}

abbrev canonical : Char → String
canonical c = String.◌∷◌ c ""

abbrev disk_of : String → Disk
disk_of text = record {
  join_path = λ parts. join parts "/";
  exists = λ path. true;
  read = λ path. some text;
  directories = λ root. some [];
  parse_json = λ text. none;
}

abbrev plan_only : Disk
plan_only = disk_of "export const served = listener (1);"

readable : All (IsReadable plan_only ".") plan_only_scan_files
readable = (read_there, (read_there, (read_there, (read_there, (read_there, tt)))))
  where
    read_there : {A : Type 0} → A → (text : String) × (plan_only.read "" ≡ some text)
    read_there there = ("export const served = listener (1);", refl)

build_actuator_readiness-ready_iff_example :
    (artifact : ActuatorReadiness) × (build_actuator_readiness canonical plan_only "."
      ≡ some artifact)
    × ((artifact.ready ≡ true) ↔ IsActuatorReady canonical plan_only ".")
build_actuator_readiness-ready_iff_example =
    build_actuator_readiness-ready_iff canonical plan_only "." readable

-- readiness, and the patterns that are found
abbrev summary : Option ActuatorReadiness → Option (Bool × List String)
summary made = made >>= λ artifact. some (
  artifact.ready,
  map (λ (f : ForbiddenMaterialization). f.id) artifact.forbidden_materialization,
)

-- which patterns hit a text
abbrev hits_of : String → List Bool
hits_of text = map (λ (p : ForbiddenPattern). p.hits text) (forbidden_patterns canonical)

ready_there :
    summary (build_actuator_readiness canonical plan_only ".")
    ≡ some (
      true,
      "NO_SERVER_BINDING" ∷ "NO_INSTALLATION_TOKEN_EXCHANGE" ∷ "NO_TOKEN_PERSISTENCE"
          ∷ "NO_GITHUB_CLIENT_CONSTRUCTION" ∷ "NO_REPOSITORY_WRITES" ∷ [],
    )
unfolding build_actuator_readiness scan_all scan_forbidden hit_paths to_upper_case is_blank contains
ready_there = refl

serves : hits_of "app.listen (80)" ≡ true ∷ false ∷ false ∷ false ∷ false ∷ []
unfolding to_upper_case contains is_blank
serves = refl

-- the word is not cut out of a longer one
preserves : hits_of "preserve(80)" ≡ false ∷ false ∷ false ∷ false ∷ false ∷ []
unfolding to_upper_case contains is_blank
preserves = refl

connects : hits_of "new  Octokit" ≡ false ∷ false ∷ false ∷ true ∷ false ∷ []
unfolding to_upper_case contains is_blank
connects = refl

branches : hits_of "git.createRef" ≡ false ∷ false ∷ false ∷ false ∷ true ∷ []
unfolding to_upper_case contains is_blank
branches = refl
