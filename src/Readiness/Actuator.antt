-- ===== src/Readiness/Actuator.antt =====
-- reports/actuator-readiness.ts: the files that the actuator needs are there, and those that only plan
-- hold no text that carries anything out.
pub mod Scan
pub mod Laws
use admissorium.Prelude.{
  is_nil, ℕ, ◌+◌, code, Char, String, ◌==◌, starts_with, Bool, true, false, not, ◌&&◌, ◌||◌, Option,
  none, some, is_some, List, [], ◌∷◌, map, any, length, leb, nat_eq, if◌then◌else◌,
}
use Prim.Native.String
use admissorium.Text.{◌⧺◌, is_blank, strip_word, skip_blanks}
use admissorium.Fallible.{◌>>=◌}
use admissorium.Registry.{Disk}
use admissorium.Audit.License.{contains_any_case}
use admissorium.Readiness.{Outcome, outcome, passed_count, failed_count}

pub record Requirement : Type 0 where
  pub id : String
  pub description : String
  pub path : String
  pub status : Outcome

pub record ForbiddenMaterialization : Type 0 where
  pub id : String
  pub description : String
  pub pattern : String
  pub paths : List String
  pub status : Outcome

-- The fields whose type has one value are left out.
pub record ActuatorReadiness : Type 0 where
  pub ready : Bool
  pub required_count : ℕ
  pub passed : ℕ
  pub failed : ℕ
  pub requirements : List Requirement
  pub forbidden_materialization : List ForbiddenMaterialization

-- the three files of each part of the actuator
abbrev part_files : List String → List String
part_files [] = []
part_files (part ∷ parts) =
    "app/" ⧺ part ⧺ ".ts"
    ∷ "docs/" ⧺ part ⧺ ".md"
    ∷ "tests/github-app/" ⧺ part ⧺ ".test.ts"
    ∷ part_files parts

abbrev pub required_actuator_pipeline_files : List String
required_actuator_pipeline_files = part_files (
    "check-run-plan" ∷ "check-run-writer-adapter" ∷ "quarantine-issue-plan"
    ∷ "quarantine-issue-writer-adapter" ∷ "projection-repair-pr-plan"
    ∷ "projection-repair-pr-writer-adapter" ∷ "actuator-dry-run-orchestrator"
    ∷ "installation-token-plan" ∷ "installation-token-exchange-adapter" ∷ "webhook-route-dispatcher"
    ∷ "webhook-request-handler" ∷ "actuator-request-pipeline-plan" ∷ [])

abbrev pub plan_only_scan_files : List String
plan_only_scan_files =
    "app/actuator-dry-run-orchestrator.ts" ∷ "app/installation-token-plan.ts"
    ∷ "app/webhook-route-dispatcher.ts" ∷ "app/webhook-request-handler.ts"
    ∷ "app/actuator-request-pipeline-plan.ts" ∷ []

-- a pattern, and its test, `new RegExp(pattern, "i").test`
pub record ForbiddenPattern : Type 0 where
  pub id : String
  pub description : String
  pub pattern : String
  pub hits : String → Bool

-- `\w`
abbrev is_word : ℕ → Bool
is_word c =
    leb b'0' c && leb c b'9'
    || leb b'a' c && leb c b'z'
    || leb b'A' c && leb c b'Z'
    || nat_eq c b'_'

module _ (canonical : Char → String) where
  -- `word\s*\(`
  abbrev calls : (text word : String) → Bool
  calls text word = elim (strip_word canonical word text) [
    | some rest ↦ starts_with (skip_blanks rest) "("
    | none ↦ false
  ]

  -- `\b(createServer|listen|serve)\s*\(`, behind a character that is one of a word or not
  abbrev pub binds_server : (behind_word : Bool) → String → Bool
  binds_server behind_word String.[] = false
  binds_server behind_word (String.◌∷◌ c s) =
      let later = binds_server (is_word (code c)) s in
      not behind_word && any (calls (String.◌∷◌ c s)) ("createServer" ∷ "listen" ∷ "serve" ∷ [])
      || later

  -- `\s+Octokit`
  abbrev blank_octokit : String → Bool
  blank_octokit String.[] = false
  blank_octokit (String.◌∷◌ c s) =
      is_blank (code c) && is_some (strip_word canonical "Octokit" (skip_blanks s))

  -- `new\s+Octokit|Octokit\s*\(`
  abbrev pub makes_client : String → Bool
  makes_client String.[] = false
  makes_client (String.◌∷◌ c s) =
      let new_octokit : Bool = elim (strip_word canonical "new" (String.◌∷◌ c s)) [
        | some rest ↦ blank_octokit rest
        | none ↦ false
      ] in
      new_octokit || calls (String.◌∷◌ c s) "Octokit" || makes_client s

  -- one of these words
  abbrev names_any : List String → String → Bool
  names_any words text = any (contains_any_case canonical text) words

  abbrev pub forbidden_patterns : List ForbiddenPattern
  forbidden_patterns =
      record {
        id = "NO_SERVER_BINDING";
        description = "Plan-only actuator path must not bind an HTTP server or listener.";
        pattern = "\\b(createServer|listen|serve)\\s*\\(";
        hits = binds_server false;
      }
      ∷ record {
        id = "NO_INSTALLATION_TOKEN_EXCHANGE";
        description = "Plan-only actuator path must not perform installation token exchange.";
        pattern =
            "createInstallationAccessToken|access_tokens|installationAccessToken|createAppAuth";
        hits = names_any (
            "createInstallationAccessToken" ∷ "access_tokens" ∷ "installationAccessToken"
            ∷ "createAppAuth" ∷ []);
      }
      ∷ record {
        id = "NO_TOKEN_PERSISTENCE";
        description = "Plan-only actuator path must not persist token material.";
        pattern = "writeFileSync|appendFileSync|createWriteStream";
        hits = names_any ("writeFileSync" ∷ "appendFileSync" ∷ "createWriteStream" ∷ []);
      }
      ∷ record {
        id = "NO_GITHUB_CLIENT_CONSTRUCTION";
        description = "Plan-only actuator path must not construct a GitHub API client.";
        pattern = "new\\s+Octokit|Octokit\\s*\\(";
        hits = makes_client;
      }
      ∷ record {
        id = "NO_REPOSITORY_WRITES";
        description =
            "Plan-only actuator path must not create check runs, issues, pull requests, branches, or repository contents.";
        pattern =
            "createCheckRun|createIssue|createPullRequest|createOrUpdateFileContents|git\\.createRef|repos\\.create";
        hits = names_any (
            "createCheckRun" ∷ "createIssue" ∷ "createPullRequest" ∷ "createOrUpdateFileContents"
            ∷ "git.createRef" ∷ "repos.create" ∷ []);
      }
      ∷ []

abbrev pub requirement : Disk → (root path : String) → Requirement
requirement disk root path = record {
  id = "REQUIRED:" ⧺ path;
  description = "Required actuator boundary object exists: " ⧺ path;
  path = path;
  status = outcome (disk.exists (disk.join_path (root ∷ path ∷ [])));
}

-- the paths whose text a pattern hits; a file that is there and cannot be read throws
unfoldable pub hit_paths :
    Disk → (root : String) → (hits : String → Bool) → List String → Option (List String)
hit_paths disk root hits [] = some []
hit_paths disk root hits (path ∷ paths) = do
  let full_path = disk.join_path (root ∷ path ∷ [])
  hit ←
      (if disk.exists full_path
        then (disk.read full_path >>= λ text. some (hits text))
        else some false)
  rest ← hit_paths disk root hits paths
  some (if hit then path ∷ rest else rest)

unfoldable pub scan_forbidden :
    Disk → (root : String) → ForbiddenPattern → Option ForbiddenMaterialization
scan_forbidden disk root item = do
  paths ← hit_paths disk root item.hits plan_only_scan_files
  some (record {
    id = item.id;
    description = item.description;
    pattern = item.pattern;
    paths = paths;
    status = outcome (is_nil paths);
  })

unfoldable pub scan_all :
    Disk → (root : String) → List ForbiddenPattern → Option (List ForbiddenMaterialization)
scan_all disk root [] = some []
scan_all disk root (item ∷ items) = do
  here ← scan_forbidden disk root item
  rest ← scan_all disk root items
  some (here ∷ rest)

abbrev pub readiness : List Requirement → List ForbiddenMaterialization → ActuatorReadiness
readiness requirements forbidden =
    let failed =
      failed_count (λ (r : Requirement). r.status) requirements
      + failed_count (λ (f : ForbiddenMaterialization). f.status) forbidden in
    record {
      ready = nat_eq failed 0;
      required_count = length requirements + length forbidden;
      passed =
          passed_count (λ (r : Requirement). r.status) requirements
          + passed_count (λ (f : ForbiddenMaterialization). f.status) forbidden;
      failed = failed;
      requirements = requirements;
      forbidden_materialization = forbidden;
    }

-- `buildActuatorReadiness`
unfoldable pub build_actuator_readiness :
    (canonical : Char → String) → Disk → (root : String) → Option ActuatorReadiness
build_actuator_readiness canonical disk root = do
  forbidden ← scan_all disk root (forbidden_patterns canonical)
  some (readiness (map (requirement disk root) required_actuator_pipeline_files) forbidden)
