-- ===== src/Lib.antt =====
-- PolyServe measures configurations of language-model engines on the machine at hand, picks the one
-- that serves a goal best, and keeps it running. This library models its decision logic and the state
-- machines around the engines, and proves what makes them right.
--
-- The parts, in the order in which a run meets them:
-- - The planner (polyserve/memory.py, and the byte tables of polyserve/hfconfig.py) drops the
--   configurations that do not fit the device: Memory (`estimate`, `plan`) with Memory/Budget and
--   Memory/Plan; HfConfig.
-- - Backends is what an engine offers to the planner and the search (polyserve/backends): `Backend` is
--   the record of its operations, Vllm (with the CPU engine of vllm_cpu.py), Sglang and LlamaCpp fill
--   it, Speculative has the methods of polyserve/speculative.py, and Registry the table of the five
--   engines. Grid, Offered and Kept are the proofs about the contexts, the grids and the variants.
-- - The pipeline (polyserve/pipeline.py) connects the parts: Pipeline has the options with their key,
--   Pipeline/Plan `prepare_and_plan`, Variants `combination_fits`, `kv_variants_fn` (as `kv_variants`)
--   and `search_space`, Calibrate the search that `calibrate` sets up, and Resolve `resolve_profile`
--   and `_resolve_phased` (`resolve` and `resolve_phased`) on the files of the cache, with
--   `check_support` of polyserve/disagg.py. Answered, Planned, Spaces, Expand, Runs, Distinct,
--   Reached, Found, Reuse and Phased are the proofs.
-- - The calibration measures configurations. A measured trial is a `TrialResult`; its data types and
--   those of the hardware, the model and the configurations (polyserve/models.py) are in Models.
-- - The search (polyserve/calibrate/search.py) measures a configuration at most once, within a time
--   budget, and retries one that ran out of memory at start-up: Search is `StagedSearch._run` with the
--   fields that it uses; Search/Ran lists the ways in which it ends, Keys, Memo, Again, Retry
--   and Winner are the proofs. Stages is `StagedSearch.run` with every stage that proposes
--   configurations: Groups, Quant, Memory, Variants, Delta, Combine, Contenders and Confirm have the
--   stages (`stage_quant`, `stage_memory` and so on, under the names of the source), Whole composes
--   them. A stage is an action on the state of the search, and Triples is the form of what one
--   guarantees; Given, Sound, Start, Early, Shapes, Middle, Tuning, Combined, Tuned, Picks,
--   Fresh, Shortlist, Confirmed, Finish, Pool and Outcome are the proofs, stage by stage, and Extra and Change are about `_delta`
--   and `_apply`. The runner, the clock, the predictor, the random draws and the functions that
--   propose variants are parameters.
-- - The choice (polyserve/calibrate/objectives.py) ranks the trials: Objectives/Score has the scores and
--   the constraints, Objectives/Rank the order and the ties (`_sort_key` is `before`, `_break_ties` is
--   `break_ties`), Objectives/Pick the winner and its notes; Order, Members, Feasible, Ties and Enough
--   are the proofs.
-- - Power (polyserve/power.py): the settings, the controller of one card with its restore file, and
--   the settings that the search measures (Power/Settings, Power, Power/Points). `_restore_locked` is
--   `restore`. NVML is a parameter, a record of calls; what it documents of the power limit is the
--   hypothesis `IsNvml`.
-- - Selector (polyserve/selector.py) says which engines a machine can run, and Layouts
--   (polyserve/layout.py) has the shapes of an engine on several cards (`tp_candidates`) and the starts
--   of several engines (`launch_replicas`, `ReplicaSupervisor.start` as `start`).
-- - Serving: LoadBalancer is the state that create_lb_app (polyserve/layout.py) shares between requests,
--   and Supervisor is the thread that restarts the engine (polyserve/serve/supervisor.py). Both are step
--   functions on a state; requests, health checks, launches and the parts of a stop are explicit events,
--   so that a theorem about all lists of events is one about all interleavings of these steps.
--   Supervisor/Steps, Budget, Engines, GivingUp and Stop are the proofs.
-- - Cache (polyserve/cache.py) keeps the profile of a calibration in a file for each machine, model and
--   request; Cache/Files has the files by their paths, Cache/Stored the proofs, and Cache/Refines the
--   map that the directory stands for. The digest of a machine (`hardware_hash` of
--   polyserve/hardware.py) and the JSON of a profile are parameters.
-- - TrafficWatch (polyserve/drift.py) counts what the proxy sees and says when it no longer looks like
--   the calibrated workload; its windows are lists that drop their oldest entry.
--
-- Shared: Base has lists, texts, integers and a stable sort over native numbers. Float is the interface
-- of Python's floats: programs take the operations as an instance, and a theorem that needs their
-- arithmetic names it (`IsOrdered`, that `<=` is total and transitive, and `RespectsSign`, the signs of
-- differences, of 0 + 0 and of negations, and `RoundsWithin`, that rounding does not cross a whole
-- number; they leave NaN out, so the theorems that take them are about
-- values that are not NaN). Float/Decimals is an exact instance of these laws on which the witnesses run.
--
-- Errors are values: `none` is the exception that the comment above the definition names, and
-- `Outcome` is a method that returns or raises, with the state it leaves. Loops are recursion on lists;
-- two of them take fuel: the digits of a number, one more than the number, and the retries of a trial,
-- for which Search/Retry says how much is enough; the stages pass the same fuel to each trial.
-- Numbers that Python keeps unbounded are natural numbers; a subtraction that the program clamps at 0
-- is the one of ℕ. Where an `if` of the program compares tuples, the comparison is written out.
--
-- Not modelled: HTTP, processes, files and clocks (the events stand for what they do), logs and texts
-- that only a reader sees, the parsing of JSON, the command line, the launching of engines by the
-- runner and the backends' command lines, the choice among layouts, the measurement of split serving,
-- the quality probe and the reports. Remote repositories and model files are the parameter `Sources`
-- of the planner, the installed software and the table of draft models are `Installed`, and the memory
-- constants that polyserve/memcal.py fits are `Fitted`.
pub mod Backends
pub mod Base
pub mod Cache
pub mod Float
pub mod HfConfig
pub mod Layouts
pub mod LoadBalancer
pub mod Memory
pub mod Models
pub mod Objectives
pub mod Pipeline
pub mod Power
pub mod Search
pub mod Selector
pub mod Stages
pub mod Supervisor
pub mod TrafficWatch
