-- ===== src/Examples/Registry.antt =====
-- The loader of governed repositories at a file of two.
use admissorium.Prelude.{String, ◌≡◌, refl, List, [], ◌∷◌, All}
use admissorium.Text.{join, trim}
use admissorium.Registry.Repos.{parse_governed_repos, split_lines}
use admissorium.Registry.Repos.Laws.{IsEntry, parse_governed_repos-join}

abbrev names : List String
names = "Verifrax/.github" ∷ "Verifrax/ADMISSORIUM" ∷ []

names-IsEntry : All IsEntry names
unfolding trim
names-IsEntry = (
  record { one_line = refl; trimmed = refl; filled = refl; no_comment = refl },
  (record { one_line = refl; trimmed = refl; filled = refl; no_comment = refl }, tt),
)

parse_governed_repos-join_example : parse_governed_repos (join names "\n") ≡ names
parse_governed_repos-join_example = parse_governed_repos-join names names-IsEntry

-- blank lines, comments and the spaces around a name do not count
untidy : parse_governed_repos "# list\r\n  Verifrax/ADMISSORIUM \n\n" ≡ "Verifrax/ADMISSORIUM" ∷ []
unfolding parse_governed_repos split_lines trim
untidy = refl
