-- ===== src/Lib.antt =====
-- aixgo: agents, their start order, workflows, and the limits on their requests.
--
-- The program runs agents that talk to language models. Parts of it that decide something by
-- themselves are modelled here, and each of them stands in modules of its own:
--
-- * Graph (internal/graph/dependency.go, errors.go): the dependency graph of the agents. `add_node`,
--   `validate` and `topological_levels` are AddNode, Validate and TopologicalLevels.
-- * Workflow (internal/workflow/executor.go, persistence.go): workflows of steps, which an executor runs
--   with retries and checkpoints. Store is the interface between the two, as a record of operations with
--   laws; the executor's theorems hold for every store that meets them, as MemoryStore does where JSON
--   gives back an equal state. What MemoryStore holds for any JSON is in MemoryStore/Held.
-- * Runtime (agent/local_runtime.go): the runtime that runs all agents in one process. Its methods are
--   `register`, `unregister`, `send`, `recv`, `broadcast` (LocalRuntime, over Channels), `call` and
--   `call_parallel` (Calls), `start` and `stop` (Lifecycle), and `start_agents_phased` (Phases), which
--   starts the agents in the levels of Graph.
-- * Memory (pkg/memory/memory.go): the bounded memory of texts, `store`, `retrieve`, and the number
--   texts of its identifiers (`itoa`). float64 is a parameter.
-- * VectorStore (pkg/vectorstore, memory/memory.go): documents with embeddings in memory. Documents and
--   Validate are document.go, Filters and Queries query.go (with results.go), Config options.go, and
--   Iterators iterator.go. Matching, Scoring, Indexes, ContentHash, Collection (Upsert, Search, Delete,
--   Batch) and Store are memory.go: `upsert`, `upsert_batch`, `query`, `get`, `delete_ids`,
--   `delete_by_filter`, `cleanup_expired` are the methods of MemoryCollection. A collection uses Matching
--   to choose the documents and Scoring to rank them, and answers with the types of Queries.
-- * Patterns (internal/supervisor/patterns/sequential.go): agents one after the other, `execute`, and
--   `get_final_output`. What an agent does is a parameter.
-- * Voting (internal/aggregation/voting.go): `majority_vote`, `unanimous_vote`,
--   `weighted_vote` and `confidence_vote` are MajorityVote and the other votes. float64 and the functions of `strings` are parameters, and so are the order in which a
--   map is visited and `sort.Slice`.
-- * Security (pkg/security/ratelimit.go): the rate limiters, the circuit breaker and the timeouts.
--
-- Conventions. A Go map is an association list with each key at most once (Common/Maps), and its
-- iteration order is the order of the list; theorems hold for every list, hence for every order. Methods
-- under a mutex are one step. A mutable object is a record that the operations hand on. Time is a
-- number read off a world, which also stands for contexts and for what user functions act on. An error
-- is a constructor of a data type in place of its text.
--
-- Fuel. `dfs` has one more unit than there are agents, `rounds` likewise, and the theorems on
-- `validate` and `topological_levels` say that it does not run out. The loop of `runLoop` need not end,
-- since next steps may form a cycle; `run_loop` takes fuel, which is enough where the first next steps
-- lead to an end. The poll loop of `waitForReady` takes fuel, which is enough where the context ends, the
-- timeout fires or the agent becomes ready. The batches of `upsert_batch`, the loops over an iterator,
-- and the loop of a filtering iterator take fuel too; as many turns as there are documents, or one more
-- than there are matches, are enough.
--
-- Not modelled: the transports, the language-model clients, the agents' prompts, files and remote
-- stores, observability, the command line. golang.org/x/time/rate is a parameter (Security/Limiter), as
-- are the clock, the context and the supply of identifiers (Workflow/Executor), and the copy of a state
-- by way of JSON (Json in Workflow/MemoryStore). So are float32 and float64 (Floats), `fmt` and SHA-256 (Formats)
-- and `sort.Slice` (Sorter, with IsSorter for what its documentation promises) for the vector store, whose
-- remote variant on Firestore is left out; its metadata values are those that `==` compares, and the
-- durations that its answers report are left out, and so is that Query hands out stored documents by
-- pointer. The order in which a query visits the candidates is a parameter of it.
mod Common
pub mod Voting
pub mod Graph
pub mod Memory
pub mod VectorStore
pub mod Patterns
pub mod Runtime
pub mod Security
pub mod Workflow
