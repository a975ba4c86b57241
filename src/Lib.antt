-- ===== src/Lib.antt =====
-- Four small systems of this repository, modelled from their Python code.
--
-- The QR-code service (qr_code_generator/scaffold/app) makes short links. `create_qr` validates a
-- URL, stores a row under a fresh token and fills the cache; `redirect` reads the cache, then a
-- negative cache, then the table, and refills the cache; updates and deletions drop the cached
-- entry; scans go through a stream to a consumer that stores them for the analytics.
--   Qr/Token            token_gen.py
--   Qr/UrlValidator     url_validator.py
--   Qr/Service          models.py, metrics.py, and the interfaces of Redis and of the database
--   Qr/Cache            cache.py; Cache/Urls and Cache/RateLimit prove its laws
--   Qr/Routes           routes.py and schemas.py: Routes/Create, Redirect, Update and Analytics are
--                       the handlers, the other children prove what they do together
--   Qr/Consumer         consumer.py; Consumer/Rounds is about what it leaves
--
-- The notification system (notification_system/app) delivers messages over channels, each behind a
-- circuit breaker, with retries and with an idempotency key for each request.
--   Breaker             circuit_breaker.py
--   Notify              models.py, schemas.py and idempotency.py
--   Notify/Store        store.py, the store in memory
--   Notify/Registry     channels/registry.py and the settings of config.py
--   Notify/Delivery     delivery.py
--   Notify/Routes       routes.py, without Redis; Routes/Fanout is its fan-out. Routes/Queued is the
--                       same with Redis, and Routes/RateLimit its rate limit
--   Notify/RedisStore   store_redis.py; RedisStore/Hashes is the form of a notification in a HASH,
--                       Reads, Commands, Agrees, Writes and Lists compare it with the store
--                       in memory
--   Notify/Queue        queue.py and the dead-letter endpoints of admin.py
--   Notify/Worker       worker.py; Worker/Reference and Worker/Rounds prove what it does.
--                       Worker/Group is the streams with their consumer group and the steps of all
--                       programs on them; its Kept, Acks, NeverLost and Promised follow a message.
--                       Worker/Delivers is delivery.py in a worker, with the store on Redis
--   Notify/Startup      the waits for Redis of main.py and worker.py, and the consumer group
--
-- The distributed cache (distributed_cache/scaffold/app) places keys on nodes by a hash ring, and
-- each node keeps an LRU cache. The router sends each request to the node of its key, and answers
-- itself when that node is not reached.
--   Ring                hash_ring.py
--   Lru                 lru_cache.py, its linked list on an explicit heap. Lru/Recent is the list of
--                       entries in the order of use that Lru/Refines and Lru/Runs refine to; Chain,
--                       Links, Dict, Entries and Stored carry the invariant between the two
--   Cluster             models.py
--   Cluster/Node        node_api.py; Node/Serves and Node/Metrics are about its requests
--   Cluster/Router      router_api.py, its settings in Router/Settings; Routing, Served and Answers
--                       are about the router with its ring and its nodes
--
-- The task scheduler (chatgpt_task/scaffold/app) keeps a table of jobs that a watcher queues and a
-- worker runs, while requests create and cancel them.
--   Tasks               models.py, and the interfaces of the calendar and of the table
--   Tasks/Handlers      the handlers of mcp_server.py, api.py and mcp_sse.py
--   Tasks/Tools         the tools of mcp_server.py, their schemas and their dispatch
--   Tasks/Scheduler     scheduler.py; Watching, Cancelling and Restart are about what it does
--
-- State is passed explicitly: a handler takes the shared state and returns it with its reply, and
-- what a program reads from outside (the clock, new ids, what a channel does) is an argument. An
-- exception is a value of the reply. Text is the list of its code points (Base/Text), a dictionary
-- that is not iterated over a list of pairs (Base/Dict), times and counts are natural numbers, and
-- an `int` that may be negative is the ℤ of Base/Int. SHA-256 and MD5 are parameters; Redis, the
-- databases, `urllib.parse` and `datetime` are records of operations with the laws the code relies
-- on, and the Tests modules give instances of them.
--
-- Loops are recursion on their range: ten tokens in `create_loop`, the virtual nodes of a ring, the
-- configured attempts of a delivery. The division loop of `base62_encode` is recursion on the
-- number itself, which gets smaller; so is that of Python's `str` of a number. The loops of the
-- worker run over the rounds, and over the pages that the streams answer. No fuel is used.
--
-- A handler of the QR-code service is one step, so Qr/Routes/Reach is about requests one after
-- another; Qr/Routes/Races is about a deletion within a redirect. The breaker is proved for any
-- interleaving of its two locked parts. In the scheduler, requests come between the watcher's
-- query and its commits; the worker's two commits for a job are steps of their own in Restart, and
-- come together in Cancelling. A request of the distributed cache is one step of the router with
-- one node, although its nodes serve several threads without a lock. The rounds of the worker are
-- about what the streams answer, whatever that is, each batch with the store at its look-up;
-- Worker/Group is about any order of reads, claims and ends of batches, of any number of workers,
-- and a worker that ends takes no further step. A request to the API with Redis is one step, in
-- which the enqueuing may fail after the save, with or without its effect.
--
-- Some values of the libraries matter. The router puts a key into the URL of a node as it is, and
-- what becomes of it there is a parameter. A TTL that no float holds raises, and what the exception
-- leaves of the cache is not modelled; the requests of Lru/Runs have TTLs that a float holds. An
-- expiry with a time zone is refused by the commits of the QR-code service, and a field that is too
-- long for its column by the commit of its consumer. A time with an offset has one value for the
-- bucket of a job and another in its row. The store on Redis is compared with that in memory for
-- writes whose errors are not the empty text, and with statuses of stored notifications only.
--
-- Not modelled: the wiring of the web applications and of the MCP servers, failures of Redis but for
-- that of the enqueuing and those at the start, the metrics but for those of the QR service and of
-- the cache nodes, the simulated channels, the Go programs of the distributed cache, Varnish beyond
-- the list of purged tokens, and the load tests and dashboards.
pub mod Base
pub mod Qr
pub mod Breaker
pub mod Ring
pub mod Tasks
pub mod Lru
pub mod Cluster
pub mod Notify
