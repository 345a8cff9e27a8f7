-- ===== src/Lib.antt =====
-- The conversion gateway takes lead events from CRM webhooks, checks consent, hashes identifiers
-- and uploads conversions to an advertising platform. This library models its core; the list at
-- the end of this comment says what is proved of it.
--
-- The parts. A webhook's event is recorded on the ledger (src/gateway/ledger.py) and a message with
-- its raw identifiers goes on a queue (src/gateway/queue). The worker (src/gateway/worker.py)
-- receives the message and lets the processor (src/gateway/processor.py) pass it through the
-- consent gate (src/gateway/consent/gate.py) and the normalisers (src/gateway/normalise). The
-- uploader (src/gateway/upload) claims processed events, batches them, sends them with retries and
-- applies the platform's answer row by row. What cannot be uploaded becomes a dead letter
-- (src/gateway/dlq/store.py), which an operator may replay. The processes meet in the database and
-- the queue alone.
--
-- Exec is the setting: a world of a database, metrics and published messages, actions that return
-- or raise in it, and the transaction around them. Models holds the rows and enums, with what the
-- columns of src/gateway/models/ledger.py hold in Columns (an insert beyond that raises a
-- DataError), Ledger the ledger's operations (Table, Operations, Claim), Consent the gate,
-- Normalise the normalisers (Strings for the methods of str, Libs for what other packages give),
-- Processor and Worker the modules of those names, Queue the contract (Base) and the in-process
-- queue (Memory), Dlq the dead letters (Store, Replay), and Upload the modules batcher, backoff,
-- classifier, client, conversion and uploader, with Json for decoded responses. Pipeline puts the
-- transactions of all processes into one step relation (Steps), and whole runs of the processes
-- into sequences of them (Processes). The definitions carry the names of the source's functions; a
-- method's state is an argument and part of the result.
--
-- How it corresponds. A datetime is a number of microseconds. A row of the ledger stands for the
-- ORM object, which the session's identity map keeps unique: an operation takes the event's id,
-- reads the row and writes it back. A transaction that raises takes back the database, and neither
-- metrics nor published messages. Rows that another transaction has locked are an argument of a
-- claim. Transactions run one after the other, which is a choice of the model: src/gateway/db.py
-- sets no isolation level, and how two open transactions interleave under READ COMMITTED is not
-- modelled. The two endless loops run once for each time in a list, which ends where their stop
-- event is set; every other loop is recursion on its list, and no loop needs fuel. A run of
-- tenacity is a derivation of a relation that says what its documentation promises.
--
-- Api models the webhook's authentication (src/gateway/api/signature.py, Signature), the two CRM
-- payloads and their mappers (src/gateway/api/schemas and mappers.py, Schemas, Calendar and
-- Mappers), the ingest of a validated event (src/gateway/api/routes.py, Ingest) and the routes
-- around it (Routes). Cli has the operator's commands (src/gateway/cli.py): those that act, what
-- the others print (Listing), and the options and exit codes (Commands). Config holds the settings
-- (src/gateway/config.py), Queue.PubSub the other transport (src/gateway/queue/pubsub.py), over
-- Google's client, and Observability the redaction of log lines
-- (src/gateway/observability/logging.py), with as much of regular expressions as its two patterns
-- use. Upload.Wire is the JSON that the client sends, and Upload.Fake the scripted client
-- (src/gateway/upload/fake.py). MockAds is the mock platform (mock_ads_api/app.py): its patterns
-- (Pattern), its validation of a row (Validation), what it is told to inject (Injection) and its
-- upload endpoint (Server), which Delivered puts behind the client. Seed is the demo traffic
-- (src/gateway/seed.py): its payloads (Payloads), and its posts, wait and verdict (Run).
--
-- Parameters: HMAC, UTF-8 and `int` (Primitives), Unicode tables, phonenumbers and SHA-256 (Libs),
-- which characters are digits for a regular expression, tenacity (Tenacity), the publisher, the
-- consumer and the upload client, Google's client of Pub/Sub (PubSubClient), pydantic's validation
-- (Validators) and JSON codec (Codec), `json.loads` and the digest of a body (Decoders), the HTTP
-- client of the demo (SeedClient), `lower` and the character classes of log lines (LogLibs), the
-- construction of the HTTP client, `datetime.fromisoformat`, and `str` of a JSON value. Each
-- theorem that uses one is applied to a concrete one in Examples.
--
-- Not modelled: the assembly of the FastAPI application and the set-up of structlog, typer's
-- parsing of arguments and the start-up of the processes, the registry of metrics, engines and
-- sessions, and the migrations. Log lines, measured times, the mock's sleep and the waits between
-- retries are left out. Of the values that no column holds, an error message with a NUL character
-- is left out. A conversion value keeps its exact decimal, where the code rounds it to a float, and
-- a HubSpot time is exact to the microsecond up to the year 2242, from where the code's float is
-- not.
pub mod Prelude
pub mod Models
pub mod Consent
pub mod Exec
pub mod Normalise
pub mod Upload
pub mod Dlq
pub mod Queue
pub mod Processor
pub mod Worker
pub mod Pipeline
pub mod Ledger
pub mod Api
pub mod Config
pub mod Cli
pub mod MockAds
pub mod Observability
pub mod Seed
pub mod Examples
