-- ===== src/Plan.antt =====
-- The plans that app/*-plan.ts make from a report: of a check run, of a pull request that repairs
-- projections, and of an issue about quarantined surfaces. No plan writes anything.
--
-- The conversions of an unknown value to text, `JSON.stringify` and `${...}`, are arguments.
pub mod CheckRun
pub mod Repair
pub mod Quarantine
use admissorium.Prelude.{Char, String, List, ◌∷◌, []}
use admissorium.Js.{Value}

pub record Printer : Type 0 where
  pub stringify : Value → String
  pub interpolate : Value → String
  pub small_letters : Char → String

-- the sentences that every plan opens with
abbrev pub preamble : List String
preamble =
    "ADMISSORIUM does not decide truth."
    ∷ "ADMISSORIUM enforces admissibility of materialized surfaces against the accepted VERIFRAX object graph."
    ∷ "" ∷ []
