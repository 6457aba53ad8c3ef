-- ===== src/Lib.antt =====
-- EDC Translation: a service that translates document bundles, with jobs, durable queues, workers
-- and the messages between them.
--
-- A submission becomes a job of a repository and a work item of a queue; a worker polls the queue,
-- translates the item and acknowledges or refuses it; the queue records results, retries and dead
-- letters.
--
--   Prelude: the shared names, Boolean tests, dictionaries, lists, and errors as values.
--   Json: JSON values, and what Python's `str`, `bool`, `dict`, iteration and `int` make of them. What
--   they make of other types is left to a `Runtime`, about which nothing is assumed.
--   Jobs (edc_translation/jobs.py): `TranslationWorkItem` and its message, `TranslationJob` and its
--   dict, the contract of a job store (`JobStore`, `IsJobStore`), the repositories in memory and in
--   files, and `LocalSynchronousWorkQueue`. Files are texts by name, and writing and
--   reading JSON is a `Codec` whose one law is that a written dict is read back. The locks make each
--   method one step.
--   Worker (edc_translation/worker.py): `TranslationWorkerResult`, `TranslationWorker` over any queue,
--   its loops, and `LocalWorkQueue`. The translation and the schema check are parameters. The loop
--   `run_until_idle` takes fuel, one unit for each test of its condition: more than the waiting items
--   and the idle polls is enough on a local queue. `run_forever` takes the answers of its stop flag.
--   Sleeping changes no state and is left out.
--   Postgres (edc_translation/postgres_backend.py): the tables of jobs, work, results and dead
--   letters as lists of rows, each SQL statement as a function on them, a transaction that commits
--   or rolls back, and the queues over them. Numbers of SQL are unbounded here, times are
--   microseconds, and a `jsonb` value is the value that was written, its keys in the order written.
--   What SKIP LOCKED passes over is given by a test on work ids.
--   Routing (edc_translation/routing.py, edc_translation/errors.py): the engines in order, their
--   availability, the diagnosis of an automatic route and its answer. The registry of engines, the
--   environment variables, the files of a model directory, `strip` and `lower` are parameters about
--   which nothing is assumed.
--   Kafka (edc_translation/kafka_backend.py): envelopes and topics, the messages of segments, results
--   and dead letters with their payloads, the fan-out of a work item and the reassembly plan. The loop
--   of the fan-out takes the number of spans as fuel, which is enough since a chunk has a span.
--   Auth (edc_translation/auth.py, edc_translation/auth_middleware.py): roles, scopes and principals,
--   API tokens with their hashes, the JSON file of tokens and audit events, session tokens, the
--   middleware, and the tenant that a route acts for. A frozenset is its members in order, each once.
--   Hash functions, Base64, JSON and the constant-time comparison are the parameter `Crypto`, whose
--   documented laws are `IsCrypto`; the environment and the clock are a `Host`.
--   What is written with `sort_keys=True` is the value with the keys of each dict in the order of
--   their code points (Json/Sorting), and JSON reads back what was written; a file of tokens in
--   another order, which `_save` never writes, is not covered.
--   Stores (edc_translation/stores.py): what a token store and an audit store offer, and the stores in
--   memory.
--   Batch (edc_translation/text_batch.py): the batch job and its repository, encodings and extensions,
--   the files of a batch, and its run. A step is a function on the jobs, the disk and the clock that
--   keeps what was written before it raised (`Act`). Paths, files and decoding are a `Disk` and
--   `Codecs`, language detection and translation are `Services`: nothing is assumed of their answers.
--   During a run no other thread changes its job.
--   Models (edc_translation/provenance.py, edc_translation/model_registry.py): the provenance of a
--   model and its checks, the validation of a bundle, and the registry of statuses. A model directory
--   is a record of what it shows; JSON, texts and `int(_, 16)` are parameters.
--   Governance (edc_translation/governance.py): tenant policies, glossaries and instruction sets.
--   Review (edc_translation/review.py): review decisions. `add` numbers a decision outside the lock,
--   so it is two steps; the theorem is about calls that do not overlap.
--   Custody (edc_translation/custody.py): the evidence of a job, and the check of a bundle's custody.
--   LanguageId (edc_translation/language_id.py): the detection of a language, by a fastText model or by
--   keywords. fastText, Unicode and floats are a parameter.
--
-- Not modelled: the translation engines, HTTP, MCP and command-line surfaces, the drivers of
-- databases and brokers, the queue over a Kafka broker, signals and threads, the PostgreSQL tables of
-- evidence, audit events, tokens and models, the translation service that the worker calls, the
-- language catalogue and quality estimates.
pub mod Prelude
pub mod Auth
pub mod Batch
pub mod Custody
pub mod Governance
pub mod Jobs
pub mod Json
pub mod Kafka
pub mod LanguageId
pub mod Models
pub mod Postgres
pub mod Review
pub mod Routing
pub mod Stores
pub mod Tests
pub mod Worker
