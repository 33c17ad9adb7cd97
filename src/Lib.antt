-- ===== src/Lib.antt =====
-- A verification library for the Python services of the Atlas compliance copilot.
--
-- The program answers compliance questions over a bank's documents. Its Python parts are the agent
-- service (agents/app), which runs one LangGraph graph per question and drafts a suspicious-activity
-- report behind a human approval; the GPU lifecycle helper (infra/gpu/atlas_gpu), which resumes,
-- provisions and above all pauses a rented GPU; the evaluation package (evals/atlas_evals), whose
-- scorers and gates block a merge or the promotion of a model; and the training package
-- (training/atlas_training). They meet over HTTP and files: the agent calls the Gateway and the MCP
-- server, the gates read what the scorers and the training runs have committed, and the GPU helper
-- writes the URL that the others read.
--
-- Shared modules. Prelude: lists, Boolean tests and signed integers over the native numbers. Float:
-- the float operations that the code calls, as a record; Float.Fixed is an instance to compute with.
-- Exec: a call that changes a world and may raise. Text: texts as lists of code points, with the
-- operations of str that several services use. Regex: whether a pattern of re matches somewhere.
--
-- Agent follows agents/app. Amounts is amounts.py: the currency pattern as a backtracking matcher
-- on code points. State is state.py and models.py, Nodes the functions of nodes/ and graph.py on
-- that state, Graph the nodes and edges of build_graph. Graph.Drive runs the graph from one
-- interrupt to the next on fuel: the longest path has six nodes, so that eight steps are enough.
-- Engine states what is asked of LangGraph: an invocation drives the graph from its checkpoint to a stop and keeps
-- the new checkpoint. Runner is runner.py (start, resume, get) over such an engine, with the counters
-- of metrics.py; Writes counts the drafts on the MCP server; Jwt is jwt_utils.py and _bearer of
-- api.py; EvalGate is eval/agent_scorer.py and eval/agent_gate.py over the responses of the runner;
-- Mcp is mcp_client.py, the client of the server that keeps the drafts.
--
-- Gpu follows infra/gpu/atlas_gpu. Poll, Session and Watchdog are lifecycle.py: poll_until_ready,
-- GpuSession with run_with_gpu, and Watchdog. Jarvis is JarvisLabsProvider of providers.py over the
-- client protocol of sdk.py, Roles and Script are provision.py, Bootstrap and EnvFile bootstrap.py,
-- and Cli the commands of __main__.py (up and provision in Cli.Commands, with the environment that
-- they read). The loops that wait for a clock run on fuel; the theorems give the fuel from the turn
-- in which the clock reaches the deadline.
--
-- Evals follows evals/atlas_evals. Adversarial is metrics/adversarial_scorer.py, Gate is
-- evaluate_gate of gate.py, Promotion is evaluate_promotion_gate of promotion_gate.py, and Cassettes
-- is CassetteStore of cassettes.py; CostGate is evaluate_cost_gate of cost_gate.py. Format is
-- metrics/format_validity.py with the scorer of metrics/refusal.py, and Citation the markers of
-- metrics/citation.py with the runner that reports them.
--
-- Training follows training/atlas_training: Aliases is promote and rollback of tracking.py, Tracker the
-- logging and the registration of an adapter there, Config is config.py, Split is
-- planned_split of data/synth.py and split_dataset of data/builder.py. Corpus is data/corpus.py, the
-- loader of the committed documents; Manifest is the guard of data/manifest.py; Synth is
-- data/synth.py, which makes the pairs of a corpus and their manifest from a teacher's answers, and
-- whose answers the scorers of Evals.Format read.
--
-- Parameters stand for code that is not in the repository or is not pure: Python's character
-- classes, float, base64, JSON, lower and str, LangGraph, MLflow, the JarvisLabs SDK, the HTTP calls,
-- the clocks and the seeded shuffle. Where a theorem needs their behaviour it takes it as a named
-- hypothesis (the records IsOrdered, IsUnitRatio, IsLawful, IsLossless, IsShuffle), and each such
-- theorem is applied to a concrete instance in the Tests module of its part.
--
-- Not modelled: logging, tracing spans and error texts, since no result depends on them; the other
-- HTTP clients, FastAPI and file formats, which are glue; the RAGAS and training libraries' calls; the
-- Java services and the user interface.
pub mod Prelude
pub mod Float
pub mod Agent
pub mod Evals
pub mod Exec
pub mod Gpu
pub mod Regex
pub mod Text
pub mod Training
