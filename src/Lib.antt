-- ===== src/Lib.antt =====
-- mentra: a runtime for agents, and the providers it talks to.
--
-- Base: names shared by the other modules, tests on numbers, lists, text as its list of
-- characters, code that may panic (`Option`) and code that may fail (`Result`).
--
-- Ring: mentra-provider/src/gateway_ring.rs and gateway_ring/health.rs, the ring of gateways
-- behind one provider. Ring.Member is a member's standing and the policy, Ring.Health is
-- `RingHealth` with `select`, `succeeded`, `failed` and `next_after`, Ring.Call is `with_rotation`
-- and `classify`. An index out of range panics: such a transition is `none`. Times are numbers of
-- ticks and a `u32` is a number that saturates at its maximum. The loop of `with_rotation` gets as
-- much fuel as the ring has members, which is its own bound on the attempts. Other callers share
-- the health: their transitions come between this call's own, as lists that the environment
-- chooses. The provider's answer is a parameter, and so is `is_client_error`, which is the `http`
-- crate's. Not modelled: the read-ahead to a stream's first event, labels, the text of the events.
--
-- Tasks: mentra/src/runtime/task.rs, task/ and volatile_store/task.rs, the board of tasks.
-- Tasks.Ids and Tasks.Graph are the dependency graph, Tasks.Status is `apply_status_change`,
-- Tasks.Board and Tasks.Update are the tools, with the store that runs them on a copy and installs
-- it when they succeed; what a refused tool leaves in the copy is a parameter. The search of
-- `path_exists` has the number of edges plus two as fuel. Ids are numbers that do not overflow, a
-- refusal is its constructor with the values that the message shows, and JSON is taken as parsed.
-- Not modelled: the typed facade, the SQLite and file stores.
--
-- Permission: mentra/src/session/permission.rs and permission/pattern.rs, remembered answers.
-- Permission.Pattern is `matches`, whose loop has a bound of (|pattern|+1) * (|text|+1) *
-- (|pattern|+1) rounds and those of the part before the first star; Permission.Rules is
-- `RuleStore`, its map the list of its entries in whatever order it iterates. Permission.Glob and
-- Permission.Applies say independently what a pattern and a rule mean, and Permission.Alphabet the
-- order of the keys. Permission.Handle is the session's lookup in its live rules and in those that
-- the runtime's store, a parameter, loads. Not modelled: the listing order of `rules`.
--
-- Steering: mentra/src/agent/steering.rs, the queues of steers and follow-ups, and `drive_run` of
-- mentra/src/agent/lifecycle.rs. Steering.Queue is the handle's queues and the agent's entries in
-- flight, Steering.Kept the acts on them during a run, and Steering.Run what a run does to the
-- entries at each of its ends. The turn, the memory and the stores of a run are a parameter, the
-- course of the run. A block of content is a parameter too, since the queues do not look into it.
--
-- Frontmatter: mentra/src/frontmatter.rs, and `parse_skill_file` of mentra/src/runtime/skill.rs.
-- Frontmatter.Scan splits a file at its `---` lines by byte offsets, where `none` is a slice off a
-- boundary; Frontmatter.Parse reads the block, Frontmatter.Quote the double-quoted values, and
-- Frontmatter.Skill takes a skill's fields. The loops over quoted values have as much fuel as the
-- text has characters and one more, since each round takes one. An error is its constructor with
-- the values that its message shows. The search for skill files is not modelled.
--
-- Retry: mentra/src/runtime/control/run.rs, `ProviderRetry` and its delays. A duration is its
-- number of nanoseconds, with the overflow of `checked_mul` written out.
--
-- Paging: mentra/src/tool/paging.rs, the windows of a tool result that is too long to show at
-- once. Base.Strings is what the code uses of `str`, with byte offsets that panic off a boundary;
-- Paging.Window is `cut` and the choice of the trailer; Paging.Tiles reads on as the trailers say,
-- with a window for each line and one more as fuel, since a window that does not end the result
-- shows a line. Not modelled: the trailer's words, and the map of retained results.
--
-- Permission.Requests: mentra/src/session/permission.rs and session/handle.rs, the requests that
-- wait for an answer. Requests.Store is `PendingPermissionStore` with its guards: the lock and the
-- one-shot channel of a request are cells at an address, which a counter hands out.
-- Requests.Resolve is `resolve_permission` in two steps, the claim and what it does under the
-- request's lock, whose receiver may leave just before the answer is sent; a step of the system is
-- one of those, a new request, an abandoned call or the drop of its guard. Generations wrap at
-- 2^64, so a run of fewer requests is supposed. `upsert` of the runtime's rule store and whether
-- the session has a project id are parameters. A poisoned lock is taken over, as the code does.
-- The authorizer that decides before the session is asked is not modelled.
--
-- Truncation: mentra/src/tool/truncation.rs. Truncation.Limit is `windows` and `apply_text`, whose
-- loops go over the lines of the text; a limiter is its two limits. Sums of the lengths of a
-- text's lines do not overflow, so they are written without saturation. Not modelled: the spill
-- file, the words of the notice, and structured output.
pub mod Base
pub mod Ring
pub mod Tasks
pub mod Permission
pub mod Steering
pub mod Frontmatter
pub mod Retry
pub mod Paging
pub mod Truncation
