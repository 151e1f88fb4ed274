-- ===== src/Registry/Repos.antt =====
-- graph/loaders/governed-repos-loader.ts: the governed repositories, one on each line of a text file.
pub mod Laws
use admissorium.Prelude.{
  String, Char, code, Bool, true, false, not, ◌&&◌, Option, some, List, [], ◌∷◌, map, nat_eq,
  starts_with, select, if◌then◌else◌,
}
use admissorium.Text.{is_empty, trim}
use admissorium.Registry.{Disk, candidates, load_first}

pub record GovernedReposLoad : Type 0 where
  pub repos : List String
  pub source : String
  pub used_bootstrap : Bool

-- a character in front of the first line
abbrev onto_first : Char → List String → List String
onto_first c [] = String.◌∷◌ c "" ∷ []
onto_first c (line ∷ lines) = String.◌∷◌ c line ∷ lines

-- `text.split(/\r?\n/)`
unfoldable pub split_lines : String → List String
split_lines String.[] = "" ∷ []
split_lines (String.◌∷◌ c s) =
    let lines = split_lines s in
    if nat_eq (code c) b'\n'
    then "" ∷ lines
    else if nat_eq (code c) b'\r' && starts_with s "\n"
    then lines
    else onto_first c lines

-- `parseGovernedRepos`
unfoldable pub parse_governed_repos : String → List String
unfolding split_lines
parse_governed_repos text =
    select (λ line. not (starts_with line "#"))
      (select (λ line. not (is_empty line)) (map trim (split_lines text)))

abbrev pub bootstrap_governed_repos : List String
bootstrap_governed_repos =
    "Verifrax/.github" ∷ "Verifrax/ADMISSORIUM" ∷ "Verifrax/ANAGNORIUM" ∷ "Verifrax/ARCHITECTURE"
    ∷ "Verifrax/AUCTORISEAL" ∷ "Verifrax/CONSONORIUM" ∷ "Verifrax/CORPIFORM" ∷ "Verifrax/ORBISTIUM"
    ∷ "Verifrax/REGRESSORIUM" ∷ "Verifrax/SIGILLARIUM" ∷ "Verifrax/SPEEDKIT"
    ∷ "Verifrax/SYNTAGMARIUM" ∷ "Verifrax/TACHYRIUM" ∷ "Verifrax/VERIFRAX" ∷ "Verifrax/VERIFRAX-API"
    ∷ "Verifrax/VERIFRAX-DOCS" ∷ "Verifrax/VERIFRAX-PROFILES" ∷ "Verifrax/VERIFRAX-SAMPLES"
    ∷ "Verifrax/VERIFRAX-SPEC" ∷ "Verifrax/VERIFRAX-STATUS" ∷ "Verifrax/VERIFRAX-SURFACE"
    ∷ "Verifrax/VERIFRAX-WWW" ∷ "Verifrax/VERIFRAX-verify" ∷ "Verifrax/apply"
    ∷ "Verifrax/archicustos" ∷ "Verifrax/attestorium" ∷ "Verifrax/cicullis" ∷ "Verifrax/guillotine"
    ∷ "Verifrax/irrevocull" ∷ "Verifrax/kairoclasp" ∷ "Verifrax/limenward" ∷ "Verifrax/originseal"
    ∷ "Verifrax/proof" ∷ "Verifrax/validexor" ∷ "Verifrax/verifrax-marketplace-smoke" ∷ []

unfoldable pub load_governed_repos : Disk → (root : String) → Option GovernedReposLoad
load_governed_repos disk root =
    load_first disk
      (record {
        repos = bootstrap_governed_repos;
        source = "BOOTSTRAP_GOVERNED_REPOS_35";
        used_bootstrap = true;
      })
      (λ path text.
        some (record { repos = parse_governed_repos text; source = path; used_bootstrap = false }))
      (candidates disk root "GOVERNED_REPOS.txt")
