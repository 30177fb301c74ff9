-- ===== src/Lib.antt =====
-- A verification library for two programs of OSS-Agent-Tools and the data they share.
--
-- TasteKit (TasteKit/tastekit/packages/core) interviews a user, compiles the answers
-- into the artifacts of an agent, detects from the agent's traces that the artifacts have drifted, keeps
-- a trust policy for the servers it uses, and relates its skills in a graph. autoManage
-- (autoManage/src) watches the trace files of many agents and shows their state. A trace is a file
-- of JSON lines; the event type is TasteKit's schemas/trace.ts, and autoManage imports it.
--
-- How the parts work together. The ingestion service of autoManage takes lines from the tailer,
-- which follows a growing file, has the parser turn them into events, derives the agent's status
-- from the newest stored events and the new ones, writes the snapshot and the events to the store,
-- and publishes messages that the dashboard state takes up. The drift detector reads whole traces.
-- The compiler runs five steps in order and saves after each how far it came, so that a failed
-- compilation can be resumed.
--
-- The files, by the code they are about, where core/ is TasteKit/tastekit/packages/core/ from the
-- repository's root, and the paths of AutoManage are those under autoManage/src/:
--   Numbers      the arithmetic of JavaScript's numbers, which the other parts take as an argument
--   Prelude      Boolean tests, lists over the native numbers, sets and maps in order of insertion
--   Trace        core/schemas/trace.ts, and the selections of core/tracing/reader.ts
--   Details      the open records that audit reports and drift signals carry
--   Compile      core/compiler/derivation.ts (Derivation), core/utils/filesystem.ts and the steps
--                of core/compiler/compiler.ts (Steps), its loop and entry (Run)
--   AutoManage   ingest/tailer.ts (Tailer), ingest/parser.ts and contracts/trace.ts (Parser),
--                status/derive.ts (Status), storage/sqlite.ts and storage/migrations.ts (Store),
--                runtime/events.ts (Bus), ingest/service.ts (Ingest), ui/state.ts (Dashboard)
--   Drift        core/drift/proposal.ts (the root), core/drift/detector.ts (Signals, Proposals,
--                Detect, Aggregates), core/drift/consolidator.ts (Consolidator)
--   Trust        core/schemas/trust.ts and core/schemas/bindings.ts (the root),
--                core/trust/manager.ts (Manager), core/trust/auditor.ts (Auditor)
--   SkillGraph   core/schemas/skills.ts (the root), core/skills/graph.ts (Paths, Edges, Cycles,
--                Analysis; Walk is the loop that two of its functions share), core/skills/linter.ts
--                (Linter)
--   Interview    core/interview/rubric.ts and core/schemas/workspace.ts (the root),
--                core/interview/interviewer.ts (Session, its updates in Coverage, its replies in
--                Response), core/interview/universal-rubric.ts and the domains' rubric.ts files with
--                core/domains/index.ts (Rubric)
--   Artifacts    core/schemas/guardrails.ts with core/compiler/guardrails-compiler.ts (Guardrails),
--                core/schemas/memory.ts with core/compiler/memory-compiler.ts (Memory); the tables of
--                presets are their modules Presets; core/schemas/playbook.ts with
--                core/compiler/playbook-compiler.ts (Playbooks, a module for each domain's)
--   Tests        runs on concrete inputs, and the theorems at inputs that meet their hypotheses
-- The other child modules hold proofs and are named for what they prove.
--
-- How code is read. A method that changes an object is a function from the old state to the new
-- one: `TraceTailer`, `SqliteStore`, `IngestionService`, `DashboardState`, `TrustPolicy` and the
-- compiler's `Files` are such states. An SQL statement is a function on the list of a table's rows.
-- The names follow the source in snake case. An absent or undefined field is `none`. Times are
-- milliseconds as native numbers; a difference that the source clamps at zero, or compares with a
-- positive bound, is the subtraction that stops at zero. Numbers that nothing computes with are
-- kept by their text.
--
-- Arguments of the model are what is not in the repository or is not determined by it: the decoding
-- of bytes, JSON and the schema check (`Codec`, `Yaml`), path names, date parsing, the clock,
-- random identifiers, the text of an object, the arithmetic of numbers that are not whole, the
-- replies of a language model and what the user writes. The compiler's loop takes those of the five
-- artifacts (`Compilers`), which may fail. What a theorem assumes of them stands among its hypotheses.
--
-- Bounds. Loops are structural on the list they run over. The loops that follow the edges of the
-- skill graph run on fuel, one more than the number of skills: each round of them visits, or paints
-- gray, one skill that was not. The interview runs over the list of the user's inputs, and waits
-- where that ends. The decimal text of a number takes one more unit of fuel than its value, and a
-- number has no more digits than that.
--
-- Not modelled: process and network glue (the file watcher, the runtime, the web routes, command
-- lines, the MCP client, the adapters), calls of language models and the prompts for them, the
-- compilers of the constitution and the skills, the persistence of the database file, QuickClaw, and
-- AutoClaw, which is a Go program.
pub mod AutoManage
pub mod Compile
pub mod Details
pub mod Prelude
pub mod Tests
pub mod Trace
pub mod Trust
pub mod Drift
pub mod SkillGraph
pub mod Numbers
pub mod Interview
pub mod Artifacts
