-- ===== src/Writer.antt =====
-- The guarded writers of app/*-writer-adapter.ts. Each is given a client of GitHub, which is an
-- argument: it answers a request or rejects it (`none`), and a rejection rejects the whole call. A run
-- lists the requests that the client was sent; its result is `none` if the call threw or was rejected.
pub mod Laws
pub mod Planned
pub mod CheckRun
pub mod RepairPr
pub mod Issue
use admissorium.Prelude.{
  String, Bool, true, false, not, ◌||◌, Option, none, some, List, [], ◌∷◌, if◌then◌else◌,
}
use admissorium.Text.{is_empty, split}
use admissorium.Js.{Env, is_set_to}
use admissorium.Fallible.{◌>>=◌}

pub record Repository : Type 0 where
  pub owner : String
  pub repo : String

abbrev two_parts : List String → Option Repository
two_parts (owner ∷ repo ∷ []) =
    if is_empty owner || is_empty repo then none else some (record { owner = owner; repo = repo })
two_parts _ = none

-- `splitRepository`, which throws unless the name is `owner/repo`
unfoldable pub split_repository : String → Option Repository
split_repository full_name = two_parts (split full_name b'/')

-- `writeDisabled`
unfoldable pub write_disabled : Option Env → Bool
write_disabled none = false
write_disabled (some env) = is_set_to (env "ADMISSORIUM_WRITE_DISABLED") "true"

module _ (Verdict Request Answer : Type 0) where
  pub record WriterResult : Type 0 where
    pub verdict : Verdict
    pub write_attempted : Bool
    pub write_performed : Bool
    pub reason : String
    pub request : Request
    pub answer : Option Answer

  pub record WriterRun : Type 0 where
    pub calls : List Request
    pub result : Option WriterResult

-- A condition under which a writer returns early, with the verdict and the reason that it returns.
pub record Guard (Verdict : Type 0) : Type 0 where
  pub holds : Bool
  pub verdict : Verdict
  pub reason : String

abbrev pub skip_if : {Verdict : Type 0} → Bool → Verdict → String → Guard Verdict
skip_if holds verdict reason = record { holds = holds; verdict = verdict; reason = reason }

module _ {Verdict Request Answer : Type 0} where
  abbrev skipped : Guard Verdict → Request → WriterRun Verdict Request Answer
  skipped guard request = record {
    calls = [];
    result = some (record {
      verdict = guard.verdict;
      write_attempted = false;
      write_performed = false;
      reason = guard.reason;
      request = request;
      answer = none;
    });
  }

  abbrev pub answered :
      Verdict → String → Request → Option Answer → Option (WriterResult Verdict Request Answer)
  answered verdict reason request none = none
  answered verdict reason request (some answer) = some (record {
    verdict = verdict;
    write_attempted = true;
    write_performed = true;
    reason = reason;
    request = request;
    answer = some answer;
  })

  -- the guards in order, and the client behind them
  abbrev pub guarded :
      List (Guard Verdict)
      → Verdict
      → String
      → (Request → Option Answer)
      → Request
      → WriterRun Verdict Request Answer
  guarded [] verdict reason client request = record {
    calls = request ∷ [];
    result = answered verdict reason request (client request);
  }
  guarded (guard ∷ guards) verdict reason client request =
      let rest = guarded guards verdict reason client request in
      if guard.holds then skipped guard request else rest

  -- The request is built before any guard is looked at, and a writer that cannot build it throws.
  abbrev pub write_guarded :
      List (Guard Verdict)
      → Verdict
      → String
      → (Request → Option Answer)
      → Option Request
      → WriterRun Verdict Request Answer
  write_guarded guards verdict reason client none = record { calls = []; result = none }
  write_guarded guards verdict reason client (some request) =
      guarded guards verdict reason client request
