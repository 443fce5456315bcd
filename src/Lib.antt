-- ===== src/Lib.antt =====
-- Verification of carlo-one-core, the local inference engine in triAI-Engine/src: one worker
-- process behind one slot, the planner that decides what fits, and the monitor that reacts to
-- pressure.
--
-- Parts and files:
-- Prelude: shared names; texts and byte lists, the unsigned integers with their saturation and
--   wrap, string maps as association lists, and the record F64 that stands for f64.
-- Chunk (triAI-Engine/src/chunk/): Chunk is classify.rs and index.rs, Chunk/Gguf the header of a
--   model file read from its bytes, Chunk/Packer the grouping of tensors and Chunk/Packer/Archive
--   the archive, Chunk/Rollback the fallback to the original file, Chunk/Loader the cache and the
--   loads. zstd and SHA-256 are the parameter Codec, about which only Chunk/Packer/Archive/Stored
--   and Chunk/Packer/Archive/Verifies assume anything: that the decoder gives back what was
--   encoded, and that the names of chunks can be told apart.
-- Planner (triAI-Engine/src/planner.rs): plan_with_runtime and what it calls, one function per
--   step; Planner/Hash is StableHash. Planner/Safety, Planner/Identity and Planner/Monotone prove.
-- Supervisor/Slot (triAI-Engine/src/supervisor/slot.rs): the slot is the owner that its mutex
--   guards, a lease the name it was taken under, and the drop of a lease is `release`.
-- Supervisor/Exit (triAI-Engine/src/supervisor.rs): append_tail and classify_exit.
-- Supervisor/Worker (triAI-Engine/src/supervisor.rs): WorkerSupervisor. Each call takes what the
--   operating system answers as a record (StartOs, Poll, WaitOs) and gives the next state; `Held`
--   is a supervisor with the slot of the process. Supervisor/Worker/Exclusion lets any number of
--   supervisors share the slot, their calls as steps of a relation.
-- Engine (triAI-Engine/src/engine.rs): every call of the engine over the supervisor;
--   Engine/Coherent and Engine/Lifecycle follow any sequence of calls, Engine/Switch the change of
--   a model.
-- MiniModel (triAI-Engine/src/supervisor/fallback.rs, with the digest and path checks of
--   triAI-Engine/src/supervisor/manifest.rs): the choice between a primary and a fallback model
--   over the engine; the digests of files are the parameter Project. MiniModel/Ensure proves how a
--   start ends.
-- Monitor/Hysteresis (triAI-Engine/src/monitor/hysteresis.rs): the cooldowns. Monitor/Trigger
--   (triAI-Engine/src/monitor/trigger.rs and triAI-Engine/src/monitor/snapshot.rs): the eight
--   triggers as a list of rules over them.
-- MiniModel calls the engine, the engine the supervisor, which takes and drops leases of the slot;
-- the trigger engine calls the cooldowns.
-- Analysis (triAI-Engine/src/analysis/job.rs, policy.rs, gates.rs): the scheduler of analysis
--   jobs, proposals and gates.
-- Kernel (triAI-Engine/src/kernel_worker.rs): pages in video and main memory, pinning;
--   Kernel/Experts the classification and the prefetching of experts. Kernel/Pinning/Steps lets
--   the threads that share a worker come between the parts of evict_to_ram and load_to_vram, which
--   let go of their locks in between.
-- Moe (triAI-Engine/src/moe/mod.rs): which experts are hot. Moe/Residency follows the sets,
--   Moe/Counts the counts.
-- Staging (triAI-Engine/src/staging.rs): the store of staged blocks, as the list of its files
--   (Staging/Files). Staging holds the calls that write, Staging/Recovery the ones that read,
--   Staging/Record the text of a commit file and Staging/Lines str::lines. SHA-256 is the parameter
--   `sha`; `IsDigest` says that sha256sum prints printable characters. A call takes the step at
--   which it stops (Stop), for an error of the system and for a crash. Staging/Kept says what the
--   directory always holds, Staging/Found what recovery makes of it, Staging/Blocks is the abstract
--   store, and Staging/Commits, Staging/Stages and Staging/Calls prove the refinement.
--   Staging/Untouched says that calls for other blocks leave a commit file alone.
-- GgufRegistry (triAI-Engine/src/gguf_registry.rs): inspect, with the reads of Chunk/Gguf.
-- Download (triAI-Engine/src/download.rs): one download over the staging store and inspect, one
--   function per step. The answers of the network and which calls of the system fail are the
--   record System, the crate url is the record Urls, whose law ReadsBack only Download/Fetch
--   assumes. Download/Fetch follows the requests, Download/Pump the transfer, Download/Ends and
--   Download/Concluded how a download ends, Download/Delivers and Download/Completes that it
--   completes if nothing disturbs it. Download/Address decides which addresses may be connected
--   to, Download/Manager keeps the ids.
-- Prompt (triAI-Engine/src/prompt/): the estimate of tokens, the caps, compression and prepare, on
--   texts as lists of characters. Prompt/Counts and Prompt/Accepts compare the counts before and
--   after compression, Prompt/Fences follows fenced code and Prompt/RawLines its lines in the raw
--   text.
-- Evidence (triAI-Engine/src/evidence/rotation.rs): which files are too old, and their removal;
--   Evidence/Rotated follows each evidence file, Evidence/Leftovers what stands under its name
--   with .deleting, Evidence/Outcome every file. A message of an error is the name of its file.
-- Each component has a module Tests with concrete runs.
--
-- Bounds: u64 arithmetic that the source saturates is `sat_add` and `sat_mul`, a counter that it
-- increments wraps at 2 ^ 32 or 2 ^ 64, and subtraction on ℕ is saturating_sub. The attempts at
-- the lock file are the 20 of the source. The redirects are a recursion on the 5 that
-- may be followed. The wait for readiness is a recursion over the list of
-- the answers that the system gives, as long as the list: an empty rest says that the call has not
-- returned yet.
--
-- Not modelled: messages for people, log events, the command line of the worker, threads that read
-- stderr, signals, temporary names, and the laws of f64, which are not assumed anywhere. A call is one
-- step where it holds its lock all through. Chunk/Loader runs its calls one after the other although
-- load_chunk lets go of the lock, Kernel/Pinning/Steps takes such calls apart. No lock is taken to be
-- poisoned.
pub mod Analysis
pub mod Chunk
pub mod Download
pub mod Engine
pub mod Evidence
pub mod GgufRegistry
pub mod Kernel
pub mod MiniModel
pub mod Moe
pub mod Monitor
pub mod Planner
pub mod Prelude
pub mod Prompt
pub mod Staging
pub mod Supervisor
