-- ===== src/Lib.antt =====
-- A model of the core of ClauseCheck: the program that assesses the facts extracted from a loan's
-- documents against the clauses of the regulations on non-banking financial companies.
--
-- How the parts interact. An instrument's text is parsed to a tree of clauses, which are cut into
-- chunks, embedded, and written as a snapshot, one of which is active. A document that is submitted is
-- extracted: the language model gives a raw value and a quote for each field, the value is normalised,
-- and the quote is stored if it stands in the document and fits its budget. A task then assesses the
-- document's facts. A fact has a field key. The rules registered for the key decide it first,
-- each a pure function of the account's facts and the date. Where no rule decides, retrieval offers
-- the model the clauses that apply on the date, and the validator takes out of the model's draft
-- every citation that is not grounded in what was offered. The result is written as an assessment
-- that supersedes the prior open one of its check, and the account's counters are recomputed. Facts
-- that contradict each other across documents are conflicts, each of which raises one check.
--
-- Files and sources:
--   Prelude: lists, dictionaries with Python's insertion order (Dict), integers with Python's
--     rounding (Int), calls that may raise (Raises), Python's texts (Chars) and regular expressions as
--     backtracking matchers (Regex) on code points, batches of a list (Batches).
--   Domain: app/domain. A date is its ordinal, a datetime its instant with its offset.
--   Rules: app/rules. Base has FactIndex, RuleOutcome and Rule of base.py; Release, Pricing,
--     Digital, Disclosure, Data, Contact, Recovery and Device have the rule classes R01 to R27, each
--     an `evaluate` and a record `rNN`; Path and Registry have registry.py and the imports of
--     __init__.py. Contract, Registered, Timeline, Window and Preconditions have the proofs.
--   Retrieve: app/retrieve and the path expansion of app/corpus/pinning.py. Applicability has the
--     SQL filters as tests of a joined row, Service the searches and the candidate set, Fusion `rrf`.
--     Candidates, Scope, Offered and Excluded have the proofs.
--   Verdict: app/verdict. Severities has severity.py, Quotes and Validator have validator.py, Store
--     the tables, Persist `_persist` and Assess `assess_fact` of assess.py, State state.py. Coverage, Words,
--     Grounding, Downgrade, Latest, History, Standing, Run, Decides and Assessed have the proofs.
--   Conflicts: app/conflicts. Detector has the comparison of two facts, Groups the evaluation of the
--     groups and `detect_for_fact` of detector.py, Record `persist_conflicts`; Agreement has proofs.
--   Llm: app/llm. Breaker has the circuit breaker, Client the client's complete, structured and embed
--     with `route`; Counted, Runs and Structured have the proofs.
--   Corpus: app/corpus. Nodes has parsers/base.py, Markers, Parser and Parse parsers/continuous_para.py
--     (the patterns, the handlers, the loop), Annex parsers/annex_table.py, Chunk, References, Embed and
--     Snapshot the files of those names, Instruments sources.py and `_parse_instrument` of service.py,
--     Ingest `ingest`. Tree, Steps, Amended, Instrument, Joined, Stems, Merged and Ingested have proofs.
--   Extract: app/extract. Spans, Normalise and Redact have the files of those names, Service has
--     service.py and the groups of fields of extractor.py; Budget and Evidence have the proofs.
--   Tasks: app/tasks/assess_tasks.py in Assess; Kept has the proofs.
--   Api: app/api/v1/documents.py in Tables and Documents; Handled,
--     Submitted and Runs have the proofs.
--
-- Parameters of the model: how Python reads a date, a datetime or an integer from a text, the instant
-- of a local midnight, and the float expression of R04 (Rules.Base.Interpreter); the order of pgvector and
-- of full-text search (Retrieve.Service.SearchEngine), which return rows from those they are given;
-- the float scores of the fusion (Retrieve.Fusion.Scores); the field registry and what the embedding
-- and the language model answer (Verdict.Assess.Environment and Client). The account's facts are given.
-- Further: what `re`, `int` and `str` take from the character database (Prelude.Regex.Characters);
-- strptime, the float of a rate and India's time zone (Extract.Normalise.Library); the answers and the
-- clock of the provider (Llm.Client.Call); the fetch of a source, the embedding, and the title patterns
-- (Corpus.Ingest, Corpus.Embed, Corpus.References); hashes, dates and the classifier's answer
-- (Api.Tables.Services); the accounts and the snapshot's surroundings (Tasks.Assess.World).
--
-- All functions are structurally recursive. The loop of `a*` in Regex counts down the characters that
-- are left, which bounds its rounds, since a round that takes nothing ends it; the retry of an embedding
-- counts its four attempts. A number of the program is an unbounded Python integer. The SQL of a
-- transaction is a function on the tables; an exception loses its writes, and not those committed before.
--
-- Not modelled: the rows of instruments and supersessions, the drift check and the report of the
-- ingestion, the network access of the fetch, the reading of PDF and DOCX files, prompts and JSON
-- schemas, the validation of the field registry, the other HTTP handlers and authentication, the
-- configuration of the task queue, the verdict report, YAML files, evaluation and generators of test
-- documents, and what only logs or measures.
pub mod Prelude
pub mod Domain
pub mod Rules
pub mod Retrieve
pub mod Verdict
pub mod Conflicts
pub mod Llm
pub mod Corpus
pub mod Extract
pub mod Tasks
pub mod Api
