-- ===== src/Lib.antt =====
-- effectprobe: evaluation of retries after a lost result.
--
-- The program runs a subject (code that calls a provider) in fresh worlds. A clean trial runs it
-- undisturbed. A perturbed trial commits at the provider, loses the first result on its way back to
-- the subject, and invokes the subject once more. Contracts then judge what was committed, and a
-- candidate failure of a retry invariant has to be reproduced by two confirmation pairs.
--
-- Which file models which part (paths from the repository's root):
--   Prelude (Lists, Text, Int, Tests)
--       Boolean tests and lists over the native ℕ, `f"..."` strings, integers.
--   Identity, Identity/Distinct
--       src/effectprobe/_lost_result.py: the identities, the loss schedules, identity_for.
--   Exception (Bind, Triple, Returns, Keeps, Catch)
--       Python exceptions as values: `M S A` is a function from a state to an outcome and a state,
--       so what was written before a raise stays written. `interrupt` is a BaseException that
--       `except Exception` lets through. Catch has `try` with `except` and with `finally`; Bind,
--       Triple, Returns and Keeps say what a chain of steps returns, raises and leaves.
--   LostResult (Alone, Delivery, Runs)
--       src/effectprobe/_lost_result.py: _ResultDeliveryController and
--       run_commit_then_lose_first_provider_result. Alone says what a subject does without a
--       controller.
--   Kernel (Verdicts, Types, Contracts, Session, Frames, Deltas, Clean, Perturbed, Evaluate)
--       src/effectprobe/_semantic_kernel.py. Verdicts: _aggregate and the verdict types. Types: the
--       case and its evidence. Contracts: _missing_requirements, _history_delta, the evaluation of
--       contracts. Session: WorldSession.__enter__ and __exit__. Frames: the local variables of a
--       trial and its `with` statement. Deltas, Clean, Perturbed: _run_clean and _run_perturbed.
--       Evaluate: _run_pair, _resolve_candidates, evaluate_case.
--   Kernel/Accounting, Confirmation, Outcomes, History, Coverage, Cleanup, Verdicts/Axes
--       proofs about these.
--   Refund (Model, Provider, Contracts, Comparison, Idempotence)
--       src/effectprobe/_refund_comparison.py: the in-memory provider, the two subjects, their
--       contracts, and the two registered cases on the kernel.
--   Store (Commits, Balance, Refusals)
--       src/effectprobe/_mcp_refund_store.py: the tables, commit_refund as a transaction,
--       observe_refunds and read_mcp_deliveries. Each call is one transaction on the database: the
--       database locks of SQLite let no two of them interleave, and a lock that times out, a full
--       disk and integers beyond 64 bits are left out.
--   Artifact (Objects, Limits, Fields, Envelope, Envelope/Checks)
--       src/effectprobe/_evidence_artifact.py: JSON values, the require functions,
--       _require_exact_fields, _object_without_duplicates, _validate_envelope, and _validate_limits,
--       whose list `nodes` of one number is the state. Its recursion is on the value, so it always
--       ends. The fields of a dict are in the order of insertion, and floats are no JSON values.
--   Artifact/Equality, Artifact/Frozen (Thawed)
--       Python's == on JSON values, with a bool as the int that it counts as; _freeze, _thaw,
--       artifact_payload and evidence_artifact_from_payload. `sorted` is an insertion.
--   Report (Checks, Decoders, Encode, Payload, Expected, Evidence, Seen, Attempts, Pairs, Text,
--       Registered, Sections, Build, Statements, Lines, Render, Junit)
--       src/effectprobe/_mcp_reports.py. Report has the types of a report, Decoders the functions
--       from _sha256 to _axis, Expected the outcomes of a mode, Evidence the checks of one trial,
--       Seen, Attempts and Pairs _validate_pair in its blocks, Registered, Sections and Build
--       _build_report in its blocks, build_mcp_report and validate_reportable_mcp_artifact, Encode
--       and Payload report_payload, Statements, Lines and Render the terminal and the JSON report,
--       Junit the tree of XML elements. The sets of trial,
--       delivery and attempt ids and the list of request ids that the pairs of an artifact share
--       are the state; a set is a list of which only the members count, and len of a set is the
--       length of the list without its repetitions. All loops are over lists. Parameters are the
--       compatibility of the running registration (live), the reader of artifacts
--       (read_mcp_evidence), the unsafe characters (unsafe_character, by their Unicode category),
--       hashing and printing of a payload (artifact_sha256, encoded_size), json.dumps (dumps) and
--       ElementTree (tostring). Paths are POSIX paths.
--   Report/Checks/Passed, Read, Names and Kept, Evidence/Histories and Kept, Pairs/Trials,
--   Attempted, Contents, Marks and Separate, Build/Axes, Eligible and Separate, Junit/Cases,
--   Text/Safe, RoundTrip
--       proofs about these.
--   Cli (Output, Execute, Main)
--       src/effectprobe/_cli.py. The state is the world; Host has the calls of the operating system
--       and Services the functions that a command calls, as parameters, and parse_args stands for
--       argparse. The loop of writes in _write_report is on fuel, one unit for each byte, which is
--       enough because a write takes a byte at least. The redirection of the streams is the
--       identity: the host's streams are those that main is given.
--   Cli/Output/Writes, Cli/Execute/Preflight and Runs, Cli/Main/Status
--       proofs about these.
--   Tests
--       runs of the two registered cases, of a small artifact that is reported and of the command
--       line on a small world, and the theorems at concrete inputs.
--
-- How the parts interact: a case (Kernel/Types, CaseDefinition) carries its world factory, its
-- canonicalizers and its contracts, each an action on an outer state `T.Outer` of the case's choice
-- that may raise anything. The kernel calls them, hands the delivery callback of LostResult to the
-- subject, and returns the results. Refund fills a case, with the tracker of its worlds as the outer
-- state.
--
-- Conventions. A subject is a well-founded tree of actions on the outer state and of crossings of
-- the delivery boundary: it may cross any number of times, catch what a crossing raises and raise
-- anything, and it always ends. It crosses with the callback of its own invocation only. Local
-- variables that are read behind a `try` statement are a record (Frame) in the state. The `cast`
-- calls of the source have no effect at run time, so what they claim is kept optional in the
-- evidence (injected_attempt_id, undelivered_result, returned_result). Comparisons of event and state
-- values are Boolean functions of the case. Integers are unbounded, as in Python. Fuel
-- stands in two places: in `decimal`, the number that is printed, which bounds the count of its
-- digits, and in the loop of writes of Cli/Output.
--
-- Not modelled: tracebacks and exception chaining (`from`), a subject that does not end, time.
-- The rest of the MCP fixture (src/effectprobe/_mcp_stdio.py, _mcp_refund_server.py,
-- _mcp_refund_comparison.py, _mcp_evidence_replay.py), the file fixture
-- (src/effectprobe/_file_refund_comparison.py), and the codec and the files of the
-- evidence artifacts (src/effectprobe/_evidence_artifact.py). Of the command line
-- (src/effectprobe/_cli.py), the declarations for argparse.
pub mod Prelude
pub mod Identity
pub mod Exception
pub mod LostResult
pub mod Kernel
pub mod Refund
pub mod Store
pub mod Artifact
pub mod Report
pub mod Cli
mod Tests
