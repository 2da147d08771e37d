-- ===== src/Lib.antt =====
-- Friendzone is a broker on the host that stands between coding agents in containers (guests) and the
-- network. A guest holds fake credentials only; the broker lets its requests through, holds them for
-- a person's review, or refuses them, and puts the real credentials in on the way out. This library
-- models the parts of it that decide, and proves what makes them correct.
--
-- The parts, and how they interact:
-- * Storage (src/storage.rs): the atomic write of a file, to which the outcome of every call of the
--   file system is a parameter.
-- * Routing (src/routing.rs): `normalize_host`, and `host_matches` of src/settings.rs, by which every
--   gate compares hosts. The URL parser of `reqwest` is a parameter.
-- * Policy (src/policy.rs): `classify` says which requests to GitHub and Linear wait for a review,
--   and Policy.Cline is the gate of the Cline API.
-- * Github (src/github.rs, src/uploads.rs): the records of a permission to comment, with their
--   validation, and of an upload.
-- * Review (src/review.rs): the queue of the requests that wait for a person. Review.Queue has one
--   function for each operation of `Queue` and `Ticket`; Review.Steps interleaves them, since each
--   takes the queue's lock.
-- * State (src/state.rs): the registry of the containers and its policy transactions (State.Policy,
--   State.Registry), the gates that guests pass (State.Gate), the request log (State.Log) and the
--   permissions to comment (State.Permissions). State.Load reads containers.json at a start; what
--   serde_json makes of its bytes is a parameter. State.Grants, State.Paging and State.Sequences have
--   the theorems of the permissions and of the log. A transaction writes containers.json by
--   Storage, and cancels the reviews of Review whose guest's policy has changed. State.Steps has the
--   runs of these operations.
-- * SecretStore (src/secret_store.rs): the vault that keeps a snapshot of the secrets in the entries of
--   the operating system's credential store, and the migration to it. SecretStore.Entries has the
--   calls, each of which may work, fail, or be where the process ends; SecretStore.Outcomes has the
--   rules for what holds after any of these. Base64, SHA-256 and JSON are parameters.
-- * Settings (src/settings.rs, src/oauth.rs): the escrow entries and their secrets, and in
--   Settings.Substitute the substitution of fakes by real credentials, on the hosts of Routing.
-- * Jobs (src/jobs.rs, and `Credential` of src/github.rs): the durable jobs. Jobs.Store has the
--   transactions, the start and the pruning, Jobs.Guest what guests and the host ask, and Jobs.Worker
--   the worker's turn `tick` in the pieces between which others run; Jobs.Steps interleaves all of
--   them with stops and starts of the broker. The jobs are written by Storage, and a job is sent only
--   while State still holds the guest's identity, with a credential of Settings. The JSON that
--   `serde_json` writes, SHA-256 and the responses of `reqwest` are parameters, and so is the snapshot
--   that a request is read into.
-- * Pushes (src/pushes.rs): the durable Git pushes. Pushes.Checks validates a submission, Pushes.Store has
--   the transactions, the start and the pruning, Pushes.Submit and Pushes.Guest what guests and the host
--   ask, Pushes.Git what is made of the answers of Git (a bundle's header, `prepare_remote`,
--   `execute_remote`), and Pushes.Worker the worker's turn in the pieces between which others run;
--   Pushes.Steps interleaves them. The answers of Git are parameters.
-- * Prelude has the shared helpers: tests, lists, maps, texts, words, results.
--
-- How the code is rendered: a method that changes its object takes the state and returns the new
-- one; `Result` is `Result E A` with the constructors of the errors in place of their texts; a
-- `HashMap` is a list of pairs, in which a key stands once after `insert`; a `HashSet` of names is
-- a list. A method that waits for a lock is one step. The worker, which looks at the state twice
-- for a job, takes both looks (`Moment` is the first); a submission, which looks at it more than
-- once too, is one step. The clock, fresh identifiers and the outcomes of the file system and of
-- channels stand in an `Env` that the operation takes. Identifiers, times and addresses are
-- numbers that are only compared. Times are in milliseconds. Text that is taken apart is a list of
-- code points (`Text`), and other text is `String`. The version that subscribers watch is a 64-bit
-- word that wraps around.
--
-- Every loop runs over a list, but for the pruning of jobs and of pushes, which has as much fuel
-- as there are jobs: each turn removes one. The bounds are those of the source: 32 requests that
-- wait and 8 of one guest, 120 seconds of waiting, 100 outcomes, 10,000 logged requests; 100 jobs,
-- 32 active and 8 of one guest, 4 MiB of a result, 256 MiB of storage; 32 pushes, 8 active and 4
-- of one guest, 32 MiB of a bundle.
--
-- Not modelled: the network, the browser's JSON, the parsers of GraphQL and Git, the clients of
-- GitHub and of MCP servers, and fields of records that only the browser reads.
pub mod Prelude
pub mod Http
pub mod Routing
pub mod Policy
pub mod Storage
pub mod Github
pub mod Review
pub mod SecretStore
pub mod State
pub mod Pushes
pub mod Settings
pub mod Jobs
