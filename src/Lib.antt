-- ===== src/Lib.antt =====
-- Verification of zymi-core: the gate that stands between an agent and the machine.
--
-- zymi-core runs agents as pipelines of steps over an append-only event log. An agent never acts
-- by itself: it emits an intention, the contract engine judges it, a human may be asked over the
-- event bus, and only an approved intention is executed. This library models that gate from the
-- text of a shell command or a path up to the events that are recorded; the validation of a
-- workspace and the plan of a pipeline; and what of a conversation an agent is shown.
--
-- The parts, and the files that model them:
--   Prelude                  tests on numbers, lists, texts as lists of characters, maps as lists of
--                            entries, and the outcomes of Rust code that may panic
--   Events                   src/types.rs (messages), src/events/mod.rs (events and their kinds)
--   Bus                      src/events/bus.rs, the event bus within a process: `EventBus::publish`,
--                            `redeliver` and the subscriptions, and the ring that `RecentLocal` is
--   Store                    the hash chain of a stream: src/events/store/event_store.rs, and `append`
--                            and `verify_chain` of src/events/store/sqlite.rs
--   Policy                   src/policy.rs, the judgement of shell commands
--     Policy.Split           `split_compound_commands`, `push_fragment`
--     Policy.Subshell        `extract_subshells`
--     Policy.ShellWrapper    `extract_shell_c_arg`
--     Policy.Fragments       `collect_all_fragments`, the work queue over the three above
--     Policy.Command         `normalize_command`
--     Policy.Docker          `check_docker_escape` and the bind mounts
--     Policy.Danger          `check_dangerous`
--     Policy.Variables       `has_variable_expansion`
--     Policy.Engine          `PolicyEngine`, `merge_decisions`, `glob_to_regex`
--   Esaa                     src/esaa and src/approval.rs
--     Esaa.Paths             the lexical treatment of paths in src/esaa/contracts.rs
--     Esaa.Intentions        src/esaa/mod.rs
--     Esaa.Contracts         `ContractEngine`, which calls `PolicyEngine::evaluate` on commands
--     Esaa.Approval          `request_approval_via_bus` and the store's side of `EventBus::publish`
--     Esaa.Replay            `replay_unfulfilled_approvals`, over `tail` of the store and the bus
--     Esaa.Orchestrator      `Orchestrator::process_intention`, which calls the contracts, then the
--                            approval
--     Esaa.Projections       src/esaa/projections.rs: the conversation, the metrics and the memory
--                            that a replay of the events rebuilds
--   Config                   src/config, the configuration of a workspace
--     Config.When            src/config/when_expr.rs, the parser and evaluation of `when:`
--     Config.Error           `ConfigError`
--     Config.Pipeline        src/config/pipeline.rs: the data, and the two forms of a step
--     Config.Refs            the references `${steps.<id>.output}` of templates and of `when:`
--     Config.Dag             src/config/dag.rs, `build_execution_plan`
--     Config.Validate        src/config/validate.rs: the references of agents and pipelines; it uses
--                            Config.Refs and Config.When
--     Config.Search          `validate_pipeline_dag`, whose verdict Config.Dag relies on
--     Config.Workspace       `validate_workspace`, and `has_agent_step` of src/config/mod.rs
--   Runtime                  what an agent is shown
--     Runtime.Window         src/runtime/context_window.rs: `mask_observations`, `forget_old_turns` and
--                            the segments they share
--     Runtime.Context        src/runtime/context_builder.rs: `events_to_messages`
--     Runtime.Context.Build  `ContextBuilder::build` and its compaction, over the two above
--   StreamRegistry           src/events/stream_registry.rs
-- The theorems about a part stand in the modules below it, the tests and concrete instances in the
-- modules whose names end in Examples.
--
-- Conventions. A text is a list of characters, each given by its code; where the source measures
-- or slices bytes, the model counts the bytes of UTF-8. Code that may panic returns an `Outcome`;
-- its `out_of_fuel` belongs to the model only.
--
-- Bounds and fuel. The loops that the source runs by an index that jumps run on fuel. For
-- `extract_subshells` and `extract_mount_sources` it is the length of the text, since each round
-- consumes a character. For the work queue of `collect_all_fragments`, `rounds` bounds how much
-- work a command can queue: bodies and arguments are shorter than their command and at most
-- `MAX_FRAGMENT_DEPTH` deep; that it is enough is a theorem about captures that are shorter than
-- the text they are taken from. The loop of `parse_expr` passes over two bytes a round, and has
-- the length of the text as fuel. `build_execution_plan` has one round for every step, and one
-- more; the search for a cycle has `search_fuel`, twice the sum, over the ids listed, of the
-- number of their dependencies and two. That all three are enough are theorems. The first pass of
-- the replay has one round for every event, and one more; that this is enough is part of its
-- theorem. The scan for references has the length of the text, and finds the same with any more
-- rounds.
--
-- Parameters. The crate `regex` is the record `RegexCrate` (compiling, matching, escaping, the
-- first group of the first match), the standard library's `to_lowercase` a function, `serde_json`
-- a function to text, the crate `sha2` a function from bytes to a digest. Values parsed from JSON
-- are the record `SerdeJson`; the order in which a hash map or set gives its keys is a function
-- `iterate` that keeps what stands in a list, and how often; the text of a `WhenExprError` is a
-- function. The database is the rows of one stream in the order of their sequence, and its head;
-- its failures are not modelled. What an orchestrator's run meets is a `World`: the identifiers
-- and times drawn, which appends to the store succeed, and the events that the bus carries before
-- the deadline and does not drop.
--
-- Not modelled: `PolicyEngine::is_enabled` and `load_policy` (a field; reading a file); the locks
-- of the bus, whose operations are single steps; the `RateLimitConfig`, which no code reads; the
-- channels that put a request to a human (terminal, HTTP, Telegram); the event stores' other
-- queries; the loading of configuration files and the substitution of templates;
-- `MetricsProjection::cache_hit_rate`, a quotient of floats; the handlers that run pipelines, the
-- LLM providers, the MCP client and server, and the CLI.
pub mod Prelude
pub mod Events
pub mod Bus
pub mod Store
pub mod Policy
pub mod Esaa
pub mod Config
pub mod Runtime
pub mod StreamRegistry
