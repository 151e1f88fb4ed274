-- ===== src/Lib.antt =====
-- ADMISSORIUM checks whether materialised surfaces are admissible against an accepted object graph,
-- and plans what its actuator may do about them. This library models the audit, the actuator and
-- the gates.
--
-- The audit is cli/admissorium.ts (Audit.Run, with Audit.Local). It reads the registries by
-- graph/loaders (Registry, with Registry.Repos, Registry.RepoClasses, Registry.Licenses and
-- Registry.Packages) and the repositories that are checked out by graph/builders (Audit.Inventory),
-- compares them by four of invariants (Audit.Perimeter, Audit.RepoClass, Audit.Package,
-- Audit.License), whose maps and sets are Grouping, and makes a report with its lists
-- (Report.Lists), a merge verdict, the readiness of the actuator (reports/actuator-readiness.ts:
-- Readiness.Actuator, on Readiness) and an exit status.
--
-- A webhook request comes in at app/webhook-request-handler.ts (Webhook.Handler), which checks its
-- signature and hands it to app/webhook-route-dispatcher.ts (Webhook.Route); the older entry
-- app/webhook-intake.ts (Webhook.Intake) only reads an envelope. app/installation-token-plan.ts
-- (Token.Plan) plans an exchange of an installation token, which
-- app/installation-token-exchange-adapter.ts (Token.Exchange) carries out behind guards. A report
-- of src/types.ts (Report) gets a merge verdict in reports/merge-verdict.ts (Report.Merge). From it
-- app/check-run-plan.ts, app/projection-repair-pr-plan.ts and app/quarantine-issue-plan.ts
-- (Plan.CheckRun, Plan.Repair, Plan.Quarantine) make plans, and the three app/*-writer-adapter.ts
-- (Writer.CheckRun, Writer.RepairPr, Writer.Issue) send them to GitHub behind guards. Whether a
-- write is permitted at all is decided by `decideWrite` of app/permissions.ts
-- (Permissions.Decision, with Permissions.Glob and Permissions.Policy below it and
-- Permissions.Requests beside it). The gates src/admission/assert-recourse-object-required.ts,
-- assert-recognition-object-required.ts, assert-verification-result-required.ts,
-- assert-continuity-transfer-required.ts, assert-cognition-boundary-required.ts,
-- assert-claim-class-admission-required.ts, assert-active-historical-truth-typing-required.ts,
-- assert-accepted-epoch-required.ts, assert-authority-freeze-required.ts,
-- assert-chainlock-projection-convergence.ts and assert-admission-count-convergence.ts are
-- Gate.Recourse, Gate.Recognition, Gate.Verification, Gate.Continuity, Gate.Cognition,
-- Gate.ClaimClass, Gate.TruthTyping, Gate.Epoch, Gate.Freeze, Gate.ChainLock and Gate.Counts, on
-- the shared module Gate. Sorting is the stable `sort` by a number that Gate.ClaimClass, Gate.Epoch
-- and Permissions.Requests use. app/actuator-request-pipeline-plan.ts (Pipeline) puts the handler,
-- the token plan and the three plans, which app/actuator-dry-run-orchestrator.ts
-- (Pipeline.Orchestrator) gathers, into one plan. Laws and the modules named for what they prove
-- (Permissions.Writes, Permissions.Stop, Permissions.Paths, Permissions.Total,
-- Permissions.Protected, Permissions.Defaults, Writer.Planned, Switch, Pipeline.Live, Gate.Objects,
-- Audit.Perimeter.Sets, Audit.Run.NeverGreen, Audit.Run.Clean, Readiness.Actuator.Scan) hold the
-- theorems; Gate.Demands says as data what a gate demands. Examples holds runs.
--
-- How the code is modelled: a function keeps its name in snake case (`decideWrite` is
-- `decide_write`). An optional property is an Option, and a name that the source has in two
-- spellings is two fields of an input and one field of a result. A throw is `none`, that of a
-- policy file that cannot be read included. `process.env` and the policy files are arguments. A
-- client of GitHub or of tokens is an argument too: it answers a request or rejects it, and a run
-- lists the requests that the client was sent, in order. A value of unknown type is a `Value` of
-- Js. Numbers are natural, or a `Number` of Js where the code tells NaN, infinities and fractions
-- apart. Texts are lists of code points, without lone surrogates.
--
-- Bounds: the only fuel is that of `print_count` of Text, the value plus one, more than a number
-- has decimal digits. Everything else is structural recursion.
--
-- What is an argument: the keyed digest, JSON.parse, the decoding of UTF-8, the case of letters
-- above ASCII (Js.Platform, Plan.Printer, Permissions.Decision.Surroundings), JSON.stringify and
-- the text of an unknown value; for the audit also the file system, the joining of paths, the
-- arguments of the command line, the time of the start and the order of the locale (Registry.Disk,
-- Audit.Local.World). Of the digest it is assumed, where a theorem says so, that it is 64
-- hexadecimal digits.
--
-- Not modelled: reports/acceptance-readiness.ts, the one-line invariants that the command line does
-- not run, the evaluators of src/policy, everything that only writes files or prints (the JSON, the
-- Markdown and the history that cli/admissorium.ts writes), and the second implementation in plain
-- JavaScript (src/v020 and its neighbours). In app/permissions.ts, class ids spelled like members
-- of Object.prototype, and a character above U+FFFF before a `?` of a glob, are left out; so are an
-- order or a stage of a claim class that is no natural number, and fields of plans whose type has
-- one value.
pub mod Prelude
pub mod Text
pub mod Js
pub mod Fallible
pub mod Sorting
pub mod Permissions
pub mod Webhook
pub mod Token
pub mod Gate
pub mod Report
pub mod Plan
pub mod Writer
pub mod Pipeline
pub mod Registry
pub mod Grouping
pub mod Audit
pub mod Readiness
pub mod Switch
pub mod Examples
