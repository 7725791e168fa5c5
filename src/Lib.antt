-- ===== src/Lib.antt =====
-- A verification of the embedding service: sentence embeddings over HTTP and over RabbitMQ.
--
-- A client (mq/client.py) publishes jobs to the exchange that mq/topology.py declares. A worker
-- (mq/worker.py) consumes the queue of a lane, parses and checks each message (mq/handler.py,
-- schemas.py), collects the jobs in a micro-batcher and shares one encode slot between its lanes
-- (mq/batcher.py). It encodes a batch with the engine (main.py), splits the vectors, replies, and acks.
-- The HTTP service (apis.py) serves the same engine directly. Settings come from config.py.
--
-- Files and code:
--   Config         config.py, `Settings`: a record, and its defaults
--   Batcher, below mq/batcher.py, `MicroBatcher`: `add`, `take_ready`, `next_batch` (one round is
--                  `next_round`, its timeout `timeout`; Batcher/Waiting: its wait on the event),
--                  `drain`, `_pop` (`pop`, of `fill` and `put_back`)
--   Slot, below    mq/batcher.py, `PrioritySlot`: `acquire` (with `leave`, `abandon_granted` and
--                  `abandon_pending` for its other exits), `_release`
--   Schemas, below schemas.py: `_coerce_and_validate`, `_cap_metadata`, the fields of `EmbeddingJob`,
--                  `EmbeddingResult`
--   Handler, below mq/handler.py: `parse_job`, `is_expired`, `encode_jobs`,
--                  `encode_jobs_isolating_failures`
--   Main, below    main.py, `EmbeddingEngine`: `load` (Main/Loading by many threads), `encode`,
--                  `_detect_truncation`; Main/Startup: `warmup`, `generate_embedding`, the start of
--                  both services; Main/Pointwise: the engine as the handler uses it
--   Api, below     apis.py: `require_api_key`, and `create_embeddings` as `begin_request` and
--                  `end_request`; Api/Health: the health routes; Api/Requests: `request_context` and
--                  `unhandled_exception_handler`
--   Worker, below  mq/worker.py: `_on_message`, `_process`, `_finish`, `_expire`, `_settle`, `_reply`;
--                  Worker/Lanes: `lane_specs`, `parse_lanes`; Worker/Entry: `main`, the constructor,
--                  `default_worker_id`, `_serve`; Worker/Lifecycle: `run`, `_start_lane`, `_lane_loop`
--                  and `_shutdown`, as the steps of Lifecycle/Steps, and `is_ready`; Entry/Calls: the
--                  batches that these release, as `encode_jobs` takes them; Worker/Encoding: the
--                  batches of both lanes at the encode slot; Worker/Counters: the counters `stats`
--   Topology       mq/topology.py, `declare_topology`: the commands that it sends, in order
--   Client, below  mq/client.py, `EmbeddingClient`: `embed_query` as `begin_query` and `end_query`,
--                  `_on_reply`, `close`, `declare_results_queue` and `submit_index`, each in a part
--                  up to its wait for the broker and one after it; Client/Calls: the jobs that
--                  `embed_query` and `submit_index` build from their arguments; Client/Session:
--                  `connect`, `close` and the calls around them; Client/Results: the callback of
--                  `consume_results`, which settles a message in a step after the one in which its
--                  handler ends, and the queue that it consumes
--   Connections    what `connect`, `consume_results`, `run` and `_start_lane` ask of the broker, in order
--   EndToEnd       from the client to the worker and back: the job that is read (ReadBack), a query
--                  (Served) and passages for the index (Indexed)
--   Examples       concrete values at which the theorems are applied
--
-- Conventions. Times are natural numbers: of one unit in the batcher, microseconds of UTC for
-- deadlines. Text is a list of code points. A dictionary is an association list in insertion order,
-- or a function where order does not matter. A call that may raise gives a `Result`, or an `Option`
-- where the exception carries nothing. What runs between two awaits is one step; steps of different
-- tasks, threads or calls interleave freely.
--
-- Fuel. `release_loop` has the number of waiters as its fuel, since each round takes one. `drain_loop`
-- has the number of items and groups and one more: each round takes an item. `digits` of n has n + 1,
-- since a number has no more digits than its successor.
--
-- Parameters. Pydantic's reading of simple fields (`Pydantic`), `json.loads`, `str` and the text of
-- validation errors (`Libraries`), the engine seen by the handler (`Engine`), the model and its
-- tokenizer (`Transformer`), clocks, the broker's confirms (`Outside`, `Confirm`) and what it makes of
-- a message that goes back to its queue (`redelivered` in Worker/Retries), and the arguments, host name
-- and process number that `main` reads. What pydantic and json read of what they wrote is a hypothesis
-- (`ReadsBack` in Schemas/Dump). Acks and nacks are taken to reach the broker, except in
-- Worker/Lifecycle, where each may raise. The headers that count deliveries are numbers, as RabbitMQ
-- writes them. json.loads may also raise something else than the two errors that `parse_job` catches
-- (`other_error`): then the callback raises too and leaves its message unsettled.
--
-- Not modelled: failures while a client or a worker connects, routing and CORS of the HTTP service,
-- logging, and negative timeouts of `embed_query`.
pub mod Prelude
pub mod Config
pub mod Batcher
pub mod Slot
pub mod Schemas
pub mod Handler
pub mod Main
pub mod Api
pub mod Worker
pub mod Topology
pub mod Client
pub mod Examples
pub mod EndToEnd
pub mod Connections
