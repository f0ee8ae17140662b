-- ===== src/Lib.antt =====
-- psv, a verification harness for payment systems (src/psv): a development of its decision logic.
--
-- psv drives a payment system over x402, looks at the chain by itself, and compares what the system
-- believes with what the chain shows. The parts that decide are modelled here, each in a file or a
-- tree of its own; names follow the source, with a leading underscore dropped.
--
--   Base, Text, Value   shared helpers: numbers and lists, Python's exceptions as `Result`, its `str`
--                       as code points with `int(s, 16)` and `bytes.fromhex`, and decoded JSON.
--   Divergence          src/psv/divergence.py and SettlementTruth of src/psv/chain.py: the verdict on
--                       a belief, in the exact and the metered scheme.
--   Differential        src/psv/differential.py: the verdicts on several systems at once.
--   Reconciliation      src/psv/reconciliation.py: strict decoding of Transfer logs, and the credits
--                       that a ledger misses.
--   Reorg               src/psv/reorg.py: confirmations and finality.
--   QuoteOption         src/psv/quote_option.py: a quote as a free option.
--   Safety              src/psv/safety.py: the policy that precedes signing.
--   Chain               src/psv/chain.py: ABI words, calldata and token reads.
--   Rpc                 src/psv/anvil.py: the JSON-RPC client. Rpc and Evidence hold its validators, Exec
--                       the methods that count requests and may raise, Client the envelope of a call,
--                       Methods, Blocks and Reads the methods.
--   Rails               src/psv/rails.py: attested rails. Rails holds their constructors, Known the known
--                       rails, Observed, Logs, Arguments, Settled and Live the steps of reconcile_live,
--                       Drift check_rail_drift.
--   Adapter             src/psv/sut.py: the strict parsers of a system's answers.
--   TokenQuirks         src/psv/token_quirks.py: atomic units, fees and shortfalls.
--   Load                src/psv/load.py: load profiles and their stages.
--   Svm                 src/psv/svm_chain.py: the truth of a Solana transaction, and its rails.
--   SecurityChecks      src/psv/security_checks.py: the guards on assets and order ids.
--   Report              src/psv/report.py: the report of a verdict, its document and its validation.
--   RunRecord           src/psv/run_record.py: records of runs, file names and the journal.
--   Cli                 src/psv/cli.py: the two commands from their arguments to the exit code; Options
--                       holds the types of the arguments.
--   Mcp                 src/psv/mcp_server.py: the tools that read a chain.
--   ReferenceSut        src/psv/reference_sut: the payment system that the harness ships. Confirmer is
--                       confirmer.py; State, Submit, Server and Ledger are server.py.
--
-- The reference system uses most of the others: `pay` asks QuoteOption whether the quote is stale and
-- Safety whether to submit, builds calldata with Chain, and confirms with Confirmer; `reconcile` runs
-- Reconciliation against the identities of the paid orders. `reconcile_live` of Rails reads the chain
-- with Rpc, decodes the selected log with Reconciliation, and grades what it proved with Divergence.
-- Cli and Mcp turn its verdict into a report of Report, and Cli into a record of RunRecord.
--
-- State is passed explicitly. An operation of the reference system maps a state and an `Outside`, which
-- holds the answers of the clock, the node, the signer and the hash to this one request, to a new
-- state and an answer or an exception; the part of a change that precedes an exception stays, as in
-- Python. `Reachable` closes the operations under all answers and all orders, restores included.
-- A check that raises is a step of a `do` block over `Result`, in the order of the source. A method of
-- the RPC client is a step of a `do` block over `Exec`, which passes on the number of requests sent.
-- The transport is a parameter: what it answers to a request, or that it raises RpcError. As no two requests
-- have the same id, an answer may depend on all requests before it, so a chain that changes between
-- two reads is among the transports. `hashlib.sha256` is a parameter too.
--
-- Numbers are unbounded, as in Python; bounds of uint256 are the code's own tests. No function needs
-- fuel but `hex_digits`: each other recursion is on a list, on a text or on a number that the code
-- counts with. `hex_of n` gives it n + 1 divisions by 16, and every number is read back from its text.
-- A hex word has a fixed width of 64 digits, which hold every uint256.
--
-- Not modelled: HTTP, JSON decoding, child processes, files, argparse and the registration of tools,
-- the texts of reports, typed-data signing and post-quantum keys, which are calls of libraries or
-- formatting; percentiles and throughput, which are floats; the time that a client sleeps. Message
-- texts of exceptions are kept only as constructors, but for the error answers of the tools. A `dict`
-- keyed by a field of its values is the list of the values, in insertion order. `Decimal` tolerances
-- are fractions. Letter case is that of ASCII; `str.strip` and `str.isdigit` are those of Unicode 14.
-- The texts of a document and of a report are parameters that may fail, as Python prints no number of
-- more than 4300 digits.
pub mod Base
pub mod Text
pub mod Value
pub mod Divergence
pub mod Reconciliation
pub mod Reorg
pub mod QuoteOption
pub mod ReferenceSut
pub mod Safety
pub mod Chain
pub mod Adapter
pub mod Differential
pub mod Load
pub mod TokenQuirks
pub mod Rpc
pub mod Rails
pub mod Svm
pub mod Report
pub mod SecurityChecks
pub mod RunRecord
pub mod Cli
pub mod Mcp
