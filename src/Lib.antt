-- ===== src/Lib.antt =====
-- llmcut reduces what is sent to a language model without losing what it may need. This library
-- models the parts of the program that decide what is sent, and proves what they promise.
--
-- The parts and their files. Paths are from the repository's root.
--   src/llmcut/model.py             Model, Model/Kinds, Model/Codec (JSON form), Model/Bound (what a
--                                   model can read)
--   src/llmcut/errors.py            Result (an error is a value, with the built-in ones in use)
--   src/llmcut/policy.py,
--   src/llmcut/core/policies.py     Policy, Policy/Selection
--   src/llmcut/store/evidence.py    Store/Evidence over the tables of Store/Database
--   src/llmcut/tokens, measurement  Tokens, Tokens/Registry, Tokens/Measurement (where a count comes
--                                   from in its child Sources)
--   src/llmcut/core/dedupe.py       Core/Dedupe
--   src/llmcut/core/pack.py         Core/Pack
--   src/llmcut/core/optimize.py,
--   src/llmcut/report.py            Core/Optimize
--   src/llmcut/core/recover.py      Core/Recover
--   src/llmcut/core/history.py      Core/History, Core/History/Compacted
--   src/llmcut/core/checkpoint.py   Core/Checkpoints (saving)
--   src/llmcut/managed/protocol.py  Managed/Protocol, Managed/Protocol/Identifier and Cycles
--   src/llmcut/managed/planner.py   Managed/Planner, with the loops of `plan` in its children Choice,
--                                   Closure and Evidence
--   src/llmcut/managed/retrieval.py Managed/Retrieval, Managed/Retrieval/Operations
--   src/llmcut/managed/runtime.py   Managed/Runtime: the loop of turns, over a turn in Ask and Answer,
--                                   the reading of a response in Calls, and what is added in Blocks
--   src/llmcut/managed/tools.py     Managed/Tools
--   src/llmcut/adapters             Adapters, with a child for each provider
--   src/llmcut/integrations/codex/events.py  Codex/Events
--   src/llmcut/index/score.py       Index/Score
--   src/llmcut/index/select.py      Index/Content (the lines of a file that are sent)
--   src/llmcut/core/command.py      Core/Command
--   src/llmcut/proxy/security.py    Proxy/Security
--   src/llmcut/proxy/optimize.py    Proxy/Native, over an adapter, a record that Adapters fills
-- Prelude, Json, Exec and World are shared: helpers, JSON values, methods that keep their state when
-- they raise, and what the program calls without implementing it. Tests holds concrete runs.
--
-- How they interact. The optimizer writes the original request and each block into the evidence
-- store, deduplicates, asks the policy and falls back to the request where nothing is saved; recovery
-- reads the request back, with the keys of its free dictionaries sorted. The planner validates a managed request, selects contexts, stores all of
-- them and defers those that are not selected; the retrieval service later reads deferred contexts
-- from the same store by the digests of the plan. The runtime plans a request, turns it into the
-- provider's form by an adapter, and answers the provider's calls by the retrieval service until it
-- asks for nothing more. The store is one value that is passed on, so that
-- what a failed call has written stays.
--
-- Parameters. A World holds hashlib, re, json, str and the clock. The provider is a function of the
-- turn and the payload, and what the clock and a cancellation say is a function of the turn; the time
-- that planning took is a number. Nothing is assumed of them, save where a theorem names it as a
-- hypothesis. What `json.loads` reads back from sorted JSON is, in such a hypothesis, the value with
-- its keys sorted, by Json/Sorted. No injectivity of the hash is assumed anywhere.
--
-- Numbers. Integers that may be negative are ℤ, others the native ℕ; Python's do not overflow. A
-- confidence is in hundredths, a time limit in thousandths. Sizes are UTF-8 bytes. Priorities and
-- bounds that a request may carry are ℤ as they come.
--
-- Fuel. The search for cycles visits with one more than the number of nodes, which is proved enough:
-- it never exhausts its fuel. The planner's loop over dependencies runs one more round than there are
-- contexts, since each round but the last selects a context, and is proved to end in time. The loop of
-- turns is by recursion on the turns that are left.
--
-- Not modelled: the command line, the client, configuration files, HTTP and process I/O, the
-- proxy's server, the MCP server, metrics, the rest of the repository index, captures, evaluation, and
-- the rest of the integrations. Sets are lists in the order of insertion, where Python's order is
-- unspecified.
pub mod Prelude
pub mod Result
pub mod Json
pub mod Exec
pub mod World
pub mod Model
pub mod Policy
pub mod Store
pub mod Tokens
pub mod Core
pub mod Adapters
pub mod Managed
pub mod Proxy
pub mod Codex
pub mod Index
pub mod Tests
