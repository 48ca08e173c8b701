-- ===== src/Lib.antt =====
-- The MariaDB storage engine of a serverless database: tables whose pages are read from a
-- pageserver over HTTP, and whose changes are sent as records of a write-ahead log to a safekeeper
-- over TCP.
--
-- The parts, and the files that model them (paths from the root of the repository):
-- - src/connection_pool.h, src/connection_pool.cc and src/connection_pool_impl.h, the pool of
--   clients. The pool has the same code once for each kind of client, so Pool models one side:
--   `available` and `all` are the queue and the managed list, and `Heap` counts the clients made
--   and lists those deleted. A second deletion has no defined result, `none`. Pool/Warm is the
--   warm-up, Pool/Shutdown the shutdown, Pool/Growth the health check, the scaling and the
--   statistics, Pool/Wrapper the two wrapper classes. ConnectionPool puts two sides together, and
--   ConnectionPool/Health is a step relation of the whole pool: `health_check_worker`, section by
--   section, among the callers of both sides, which ConnectionPool/Sides compares with two sides by
--   themselves. Pool/Ownership, Pool/Drain, Pool/Sharing and Pool/Traces are about what callers
--   meet; Traces interleaves them as a step relation, and Pool/Lending follows in another what each
--   caller holds (Pool/Lending/Once); Pool/Supply is about a caller who is alone.
-- - src/serverless_types.h: Types.
-- - src/safekeeper_client.h and src/safekeeper_client.cc: SafekeeperClient, with
--   SafekeeperClient/Connection, SafekeeperClient/Descriptors (which descriptors are open),
--   SafekeeperClient/Messages (what the message of a record tells), SafekeeperClient/Parse (a
--   reference parser of it), SafekeeperClient/Worker (the queue and its thread, section by section),
--   SafekeeperClient/Loop (the whole of `worker_thread_main`) and SafekeeperClient/Delivery (the
--   messages that reach a safekeeper that takes and answers them).
-- - src/pageserver_client.h and src/pageserver_client.cc: PageserverClient, with
--   PageserverClient/Pages and PageserverClient/Urls.
-- - src/ha_serverless.h and src/ha_serverless.cc: Timeline (`hash_string`, `page_key`, with
--   Timeline/Polynomial), PageCache (what happens under `cache_mutex`), Engine (the global state),
--   Handler (the methods of `ha_serverless`), with Handler/Reading, Handler/Hits, Handler/Rows,
--   Handler/Creation, Handler/Writes and Handler/Interface (what the server is
--   told of the engine), Handler/Delivered (rows from the handler to the safekeeper),
--   Handler/Interleaved and Handler/Arrivals (rows of many handlers, in any order), Handler/Frame
--   (rows against reads), Handler/Threads (reads by many threads through one pool), and Plugin
--   (loading and unloading), with Plugin/Loaded (what can follow), Plugin/Loss, Plugin/Turns,
--   Plugin/Writes, Plugin/Reads and Plugin/Calls (what becomes of rows and pages after loading) and Plugin/Unload
--   (what unloading closes). PageCache/Invariant, PageCache/Sections and PageCache/Eviction are
--   about one cache, PageCache/Faithful about the pages in it, PageCache/Readers about many threads
--   that read through it, PageCache/Objects about the objects that it points to, and PageCache/Fifo
--   about the queue of its keys. Handler/Served
--   and Handler/Stores say what a pageserver gives, Handler/Answering and Handler/Supplied what one
--   that always answers gives, and Handler/Transparent compares reads through the cache with it.
--   The handler takes clients from the pool, and calls the two clients; the plugin makes the pool,
--   and the two clients that row operations use.
-- - Base and Text are shared: numbers, lists, C integers, and the texts that `snprintf` writes.
-- - Examples holds the tests and the instances of the theorems.
--
-- Parameters. The operating system's sockets are a record of functions on a state of the world
-- (Sockets), libcurl is another (`Curl` in PageserverClient): a transfer with the pieces of its
-- body, its success and its response code, and the cleaning up of a handle. Whether the
-- construction of a client returns is a function of its number, and what other threads do while a
-- call waits is a function on the side of the pool. The numbers that the server's headers define
-- are a record (`ServerHeaders` in Handler/Interface). `IsPosix` states what is documented of
-- `inet_pton` and `recv`, `IsStore` that a pageserver keeps pages, `IsAnswering` that the one at a
-- base URL has every page and answers, and `IsKeeping` that a safekeeper takes messages whole and
-- answers; theorems that need them say so. With a documented `inet_pton` the plugin's own clients
-- never connect, since their host is `localhost`; theorems about a connected client are about one that
-- `set_server_address` and `connect` have connected.
--
-- Bounds. Counters and sequence numbers wrap at 2 ^ 64 (`u64`), ports at 2 ^ 16. Decimal texts are
-- made with 20 rounds, enough for every number below 2 ^ 64, since 2 ^ 64 < 10 ^ 20; Text/Decimal
-- has the proof. `worker_thread_main` runs on fuel, one unit for each round: for a queue of n
-- requests n + 1 rounds are enough, one for each and one that waits. No other definition runs on
-- fuel. The hit rates, of type double in the source, are exact fractions. A page has 16384 bytes,
-- and a cache 1024 pages at most, as in the source.
--
-- Not modelled: the messages to the log, the time that waits take, and the freeing of memory other
-- than the deletion of clients and of cached pages; nor what happens where the constructor of a legacy
-- client throws while the plugin is loaded, or where it is loaded while a pool is there. What the
-- deletion of a client does to libcurl and to the sockets is in `destruct` of PageserverClient and of
-- SafekeeperClient/Worker. An address in memory is a number, and `Memory` gives the bytes from
-- there on.
pub mod Base
pub mod Pool
pub mod ConnectionPool
pub mod Types
pub mod Timeline
pub mod Text
pub mod Sockets
pub mod SafekeeperClient
pub mod PageserverClient
pub mod PageCache
pub mod Engine
pub mod Handler
pub mod Plugin
pub mod Examples
