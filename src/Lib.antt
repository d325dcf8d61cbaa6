-- ===== src/Lib.antt =====
-- Tessera, a policy proxy for the tool calls of agents: its decisions, its audit chain and its
-- tracker of combined operations.
--
-- A request reaches the engine with a context: the tool's name and arguments, the upstream, the intent
-- and what the proxy has fetched in advance. The engine resolves the effective name, and the first of
-- the loaded policies that applies and whose conditions hold decides. Some conditions ask the tracker,
-- which follows chains of operations by tenant, scope and combination. Each outcome is an audit event:
-- the queue takes it off the request's path, the emitter builds it, the chain stamps it with the hash of
-- its canonical JSON and with the hash of the tenant's event before it, and the sinks store it. The
-- verifier walks the stored events, or the files of an exported bundle. The loader reads the policies
-- from the files of a directory, and reads them again when they change. Calls that come as AWS CLI
-- commands are translated to canonical names, on which policies are written.
--
-- The files and the code that they model:
--   Prelude, Dict     shared names, lists, integers, and Python's dict as a list of entries
--   Python            results, floats, JSON values, texts: what the code uses of the language
--   Audit.Canonical   tessera/audit/canonical_json.py: _normalize, canonical_json
--   Audit.Chain       tessera/audit/chain.py: HashChain
--   Audit.Verifier    tessera/audit/verifier.py: _walk_chain, verify_chain
--   Audit.Bundle      tessera/audit/verifier.py: verify_bundle_dir, in Directory, over the tests on the
--                     manifest
--   Audit.Export      tessera/audit/export.py: summarize_events, signing_payload
--   Audit.Emitter     tessera/audit/emitter.py: AuditEmitter; a sink is a step on the outside world
--   Audit.Sqlite      tessera/audit/sinks/sqlite.py: the table as a list of rows, its constraints and
--                     its queries
--   Audit.Buffered    tessera/audit/sinks/_buffered.py: BufferedSink
--   Audit.Queue       tessera/audit/async_emit.py: the queue and its consumer as steps
--   Cost.Combinations tessera/cost/combinations.py: ActiveChain and the writes of CombinationTracker,
--                     with its queries and its sweep in Cost.Combinations.Queries
--   Policy.Schema     tessera/policy/schema.py: a constructor for each model of a condition
--   Policy.Eval       the context, the state that an evaluation changes, and the calls out of it
--   Policy.Matchers   tessera/policy/matchers.py
--   Policy.Conditions tessera/policy/conditions.py: an eval_ function for each _evaluate_ function,
--                     in child modules, and the lookups before the evaluation in Sync
--   Policy.Engine     tessera/policy/engine.py: PolicyEngine
--   Policy.RegexSafety, Policy.ActionVerbs
--                     tessera/policy/regex_safety.py: validate_pattern; tessera/policy/action_verbs.py:
--                     load_user_mappings, merge_mappings
--   Policy.Loader     tessera/policy/loader.py: _sort_conditions, _sorted_policies; Compile and Files
--                     have _load_file and load_all
--   Policy.Cloud      tessera/policy/cloud_loader.py: _merge; Rows has
--                     _load_cloud_policies over the rows that the cache gives
--   Aws.Translator    tessera/integrations/aws/cli_translator.py: to_call_aws, from_call_aws, and a list
--                     of parts for each handler
--   State.DailySpend  tessera/state/daily_spend.py: the table of totals by scope and day
--   Tests             concrete inputs for the theorems
--
-- State is passed on: a method takes the record of its object and returns it with the result. A method
-- under a lock is one step. An exception is a value of Result; Eval is the monad of an evaluation that
-- reads and writes the world and may raise. Loops are structural recursions, so none needs fuel but
-- the printing of a number, which takes the number plus one as fuel and divides by ten in each round,
-- and the rounds in which the audit queue drains, whose number is bounded by what the queue holds.
--
-- Floats are an abstract interface (Python.Float): no law of IEEE arithmetic is used. The hash, the
-- regex library, fnmatch, jmespath, boto3, the zone clock, the Ed25519 library, the binding of values by
-- sqlite3, the validation of the models, and in the engine the CLI translator, are parameters. Of the
-- hash one fact is a hypothesis where it is needed: its text is not empty. A dict has distinct keys,
-- which is a hypothesis where it is needed.
--
-- A text is a sequence of Unicode scalar values. A Python str may hold a lone surrogate too, for which
-- `encode("utf-8")` raises UnicodeEncodeError, a ValueError: Python.Json.utf8 takes code points and raises
-- at a surrogate, the hash of a statement may fail, and so may the write of a line of the buffer. The
-- theorems on these name the condition. No other operation of the model distinguishes such texts.
-- sqlite3 stores a NaN as NULL.
--
-- Not modelled: the HTTP servers and clients, the reading of files and of YAML, metrics, the handlers that
-- the translator derives from the names of the built-in table, and the expiry of the shared cache of
-- sizes, which drops entries between evaluations. Text of error messages is left out: an exception
-- stands for it.
pub mod Prelude
pub mod Dict
pub mod Python
pub mod Audit
pub mod Cost
pub mod Policy
pub mod State
pub mod Aws
pub mod Tests
