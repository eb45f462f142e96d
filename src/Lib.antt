-- ===== src/Lib.antt =====
-- Invarail is a gateway between chat channels and local language models. A message is classified by a
-- router, a specialist with a list of tools is chosen, and the specialist's model calls tools in a
-- loop. The development models the router, the authority plane of that program, which decides what may
-- run and who approved it, the tool loop, and the components that keep state around them.
--
-- Parts, and where they are modelled
--   Prelude            strings (lists of UTF-16 code units), lists and objects as JavaScript has them.
--   Identity           src/identity/principal.ts: aliases, principals, the owner.
--   Config             src/config/schema.ts: the settings that the other parts read.
--   Registry, Json     src/tools/registry.ts and types.ts: tools, tool calls, the scoped executor.
--   Security.Ledger    src/security/pending-actions.ts: previewed actions (`record`, `latestFor`,
--                      `findById`, `listFor`, `consume`).
--   Security.Patterns  the regular expressions of the same file, as recognisers.
--   Security.Grants    src/security/grants.ts: standing grants and the approval of a call.
--   Security.Policy    src/security/tool-policy.ts: `checkToolPolicy`.
--   Security.Exchange, Security.Confirm
--                      src/security/confirm-handler.ts: `handleConfirmation`. The files and logs that
--                      it changes are a `World`; what it reads from outside is an `Event`.
--   Security.WebIdentity
--                      src/security/web-identity.ts: `resolveWebIdentity`.
--   Dispatch           src/dispatch.ts: the category and tool layers, cron mode, the confirm set.
--   Dispatch.Gate      src/dispatch.ts: the executors that `runSpecialist` and the pipelines use.
--   Coding.MergeGate   src/coding/merge-gate.ts: `classifyTier` and `runMergeGate`.
--   Coding.Arm, Coding.SelfMod
--                      src/coding/self-mod.ts: `SelfModWorktrees`, and what the coding arm calls.
--   Coding.Service, Coding.Deploy
--                      src/coding/self-mod-service.ts: `SelfModService`.
--   Pipeline           src/pipeline/types.ts; Pipeline.Calls and Pipeline.Executor are executor.ts.
--   Ollama.ModelCaps   src/ollama/model-caps.ts.
--   Cron               src/cron: store.ts, service.ts (timers, runs, catch-up) and run-log.ts.
--   Services.RateLimiter
--                      src/services/rate-limiter.ts.
--   Services.Debounce  src/services/message-debouncer.ts and media-debouncer.ts.
--   Router             src/router/classifier.ts: `classifyMessage`; Router.Reroute is reroute.ts.
--   Memory             src/memory/fact-store.ts: `FactStore` (Memory.Facts, Memory.Write,
--                      Memory.Removal, Memory.View, Memory.Review); Memory.Similarity is
--                      fact-similarity.ts.
--   Contracts          src/contracts/completion-contract.ts: extraction, check and hook.
--   ToolLoop.Drift     src/tool-loop/engine.ts: `DriftTracker`.
--   ToolLoop.Calls, ToolLoop.Engine, ToolLoop.Run
--                      src/tool-loop/engine.ts: `runToolLoopInner`; its table of verbs is ToolLoop.Verbs.
--   Sessions           src/sessions/state-tracker.ts: `applyDelta`.
--   Sessions.Store     src/sessions/store.ts: transcripts, summaries, states and metadata as files.
--   Tasks              src/tasks/store.ts and types.ts.
--   Utils.Split        src/utils/text.ts: `splitFinalMessage`.
--   Examples           runs at concrete inputs.
--
-- How state and operations correspond. A store that is a file is the list that the file holds, or none
-- where it cannot be read; an operation takes the state and returns the new one. Clocks, random ids
-- and whether a write lands are arguments. What a tool does, what a check of the merge gate finds,
-- which schedules the timer library takes and what a model replies are functions that are arguments.
-- A dispatch records a call in the ledger (Dispatch.Gate), a confirmation takes it out and runs it
-- (Security.Confirm), and the policy that a dispatch applied is asked again there (Dispatch.Scope).
-- A change of the program by itself is proposed into the same ledger (Coding.Service) and merged by
-- the tool that a confirmation runs (Coding.Deploy); code that can throw returns an `Attempt` beside
-- the state that it leaves.
--
-- The memory of a sender is a bucket with the lines of its index; times are milliseconds, a confidence
-- is a count of hundredths, and of thousandths in the router. The tables of regular expressions of the
-- router, the words and digests of the memory and the embedding model are functions that are arguments.
--
-- Loops are structural recursion on the list that they go through; the retries of a job are
-- recursion on the number that is left, and a pipeline is recursion on its stages, so no fuel can
-- run out. The tool loop takes fuel: `max_iterations`, five for the repairs, thrice the most that a
-- check grants, and one, which is enough by ToolLoop.Termination, since each repair fires once and
-- the checkpoint is asked three times at most; the split of an answer takes one more than the answer
-- is long, since each chunk takes a character at least. Concurrency is modelled where runs of a job
-- can overlap, as a step relation (Cron.Runs); the confirmation handler awaits nothing between
-- choosing an action and consuming it, so one message is one step.
--
-- Not modelled: prompts, model calls, the graph memory and embeddings, of the flat memory the
-- search, the migration of legacy files and the mirrored documents, the shadow router, channel
-- adapters, the browser and voice parts, which are input and output around other programs; the
-- wording of most replies, which is kept as data; the definitions of single pipelines, of the tool
-- loop the trim of old observations, the schemas of parameters and the parsers of calls in a text;
-- the observer of a pipeline's finished stages, which is told what the timings hold. `toLowerCase`
-- folds ASCII, Latin-1 and Cyrillic letters in the model, and leaves others as they are.
pub mod Prelude
pub mod Identity
pub mod Json
pub mod Registry
pub mod Config
pub mod Security
pub mod Dispatch
pub mod Coding
pub mod Cron
pub mod Services
pub mod Memory
pub mod Router
pub mod Contracts
pub mod ToolLoop
pub mod Ollama
pub mod Pipeline
pub mod Sessions
pub mod Tasks
pub mod Utils
pub mod Examples
