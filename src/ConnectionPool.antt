-- ===== src/ConnectionPool.antt =====
-- src/connection_pool.h, src/connection_pool.cc and src/connection_pool_impl.h: the whole
-- `ConnectionPool`, two sides and the health thread. Each method runs the code of `Pool` on one side,
-- or on both.
pub mod Health
pub mod Sides
use mariadb_serverless_engin.Base.{
  ℕ, ◌<◌, ◌≡◌, Bool, true, false, [], Option, none, some, arith, length, if◌then◌else◌, ◌>>=◌,
}
use mariadb_serverless_engin.Pool.{Ptr, Heap, Side, init, get_connection, return_connection}
use mariadb_serverless_engin.Pool.Warm.{warm_pageserver_connections, warm_safekeeper_connections}
use mariadb_serverless_engin.Pool.Shutdown.{shutdown_side, warm_then_shutdown}
use mariadb_serverless_engin.Pool.Growth.{Rate, check_side, hit_rate, scale_side, reset_side}

pub record ConnectionPool : Type 0 where
  pub pageserver : Side
  pub safekeeper : Side
  pub health_check_running : Bool
  pub thread_joinable : Bool
  pub health_check_interval : ℕ

-- Whether the n-th construction of a client returns, for each kind of client.
pub record Constructs : Type 0 where
  pub pages : ℕ → Bool
  pub keepers : ℕ → Bool

abbrev no_clients : Heap
no_clients = record { next = 0; destroyed = [] }

unfoldable pub new_pool : ℕ → ℕ → ℕ → ℕ → ConnectionPool
new_pool min_pageserver max_pageserver min_safekeeper max_safekeeper = record {
  pageserver = init no_clients min_pageserver max_pageserver;
  safekeeper = init no_clients min_safekeeper max_safekeeper;
  health_check_running = false;
  thread_joinable = false;
  health_check_interval = 30;
}

unfoldable pub warm_connections : Constructs → ConnectionPool → ConnectionPool
warm_connections e p = record p {
  pageserver = warm_pageserver_connections e.pages p.pageserver;
  safekeeper = warm_safekeeper_connections e.keepers p.safekeeper;
}

-- `starts` says whether the thread could be started: if not, the constructor of `std::thread`
-- throws, and `initialize` reports failure. To assign to a thread that is joinable ends the program.
unfoldable pub initialize : Constructs → Bool → ConnectionPool → Option (Bool × ConnectionPool)
unfolding warm_connections
initialize e starts p =
    let warmed = record (warm_connections e p) { health_check_running = true } in
    if starts
    then (if p.thread_joinable then none else some (true, record warmed { thread_joinable = true }))
    else some (false, warmed)

-- The join returns, since the worker reads the flag after each sleep.
unfoldable pub shutdown : ConnectionPool → Option ConnectionPool
shutdown p = do
  pages ← shutdown_side p.pageserver
  keepers ← shutdown_side p.safekeeper
  some (record p {
    pageserver = pages;
    safekeeper = keepers;
    health_check_running = false;
    thread_joinable = false;
  })

-- The destructor.
unfoldable pub destruct : ConnectionPool → Option ConnectionPool
unfolding shutdown
destruct p = shutdown p

-- `others` is what other threads do to the side during the wait.
unfoldable pub get_pageserver_connection :
    Constructs → (Side → Side) → ConnectionPool → Ptr × ConnectionPool
get_pageserver_connection e others p =
    let (client, s) = get_connection e.pages others p.pageserver in
    (client, record p { pageserver = s })

unfoldable pub get_safekeeper_connection :
    Constructs → (Side → Side) → ConnectionPool → Ptr × ConnectionPool
get_safekeeper_connection e others p =
    let (client, s) = get_connection e.keepers others p.safekeeper in
    (client, record p { safekeeper = s })

unfoldable pub return_pageserver_connection : Ptr → ConnectionPool → ConnectionPool
return_pageserver_connection client p = record p {
  pageserver = return_connection client p.pageserver;
}

unfoldable pub return_safekeeper_connection : Ptr → ConnectionPool → ConnectionPool
return_safekeeper_connection client p = record p {
  safekeeper = return_connection client p.safekeeper;
}

pub data ClientKind : Type 0 where
  pageserver_client safekeeper_client : ClientKind

-- The specialisations of `PooledConnection` for the two kinds of client.
unfoldable pub return_connection_impl : ClientKind → Ptr → ConnectionPool → ConnectionPool
unfolding return_pageserver_connection return_safekeeper_connection
return_connection_impl pageserver_client client p = return_pageserver_connection client p
return_connection_impl safekeeper_client client p = return_safekeeper_connection client p

-- Both rates are read first. `meanwhile` is what other threads do to the safekeeper side during the
-- pageserver's part; `other_pages` and `other_keepers` come between a test and its lock.
unfoldable pub scale_pool_if_needed :
    Constructs → (Side → Side) → (Side → Side) → (Side → Side) → ConnectionPool → ConnectionPool
scale_pool_if_needed e other_pages meanwhile other_keepers p = record p {
  pageserver = scale_side e.pages (hit_rate p.pageserver) other_pages p.pageserver;
  safekeeper = scale_side e.keepers (hit_rate p.safekeeper) other_keepers (meanwhile p.safekeeper);
}

-- One round of the worker after its sleep; it ends the loop if the flag was lowered meanwhile.
unfoldable pub health_check_round :
    Constructs
    → (Side → Side)
    → (Side → Side)
    → (Side → Side)
    → ConnectionPool
    → Option ConnectionPool
unfolding scale_pool_if_needed
health_check_round e other_pages meanwhile other_keepers p =
    if p.health_check_running
    then (do
      pages ← check_side p.pageserver
      keepers ← check_side p.safekeeper
      some (
          scale_pool_if_needed e other_pages meanwhile other_keepers
            (record p { pageserver = pages; safekeeper = keepers })))
    else some p

pub record PoolStats : Type 0 where
  pub pageserver_total : ℕ
  pub pageserver_available : ℕ
  pub safekeeper_total : ℕ
  pub safekeeper_available : ℕ
  pub pageserver_requests : ℕ
  pub safekeeper_requests : ℕ
  pub pageserver_hit_rate : Rate
  pub safekeeper_hit_rate : Rate

unfoldable pub get_stats : ConnectionPool → PoolStats
get_stats p = record {
  pageserver_total = length p.pageserver.all;
  pageserver_available = length p.pageserver.available;
  safekeeper_total = length p.safekeeper.all;
  safekeeper_available = length p.safekeeper.available;
  pageserver_requests = p.pageserver.requests;
  safekeeper_requests = p.safekeeper.requests;
  pageserver_hit_rate = hit_rate p.pageserver;
  safekeeper_hit_rate = hit_rate p.safekeeper;
}

unfoldable pub reset_stats : ConnectionPool → ConnectionPool
reset_stats p = record p {
  pageserver = reset_side p.pageserver;
  safekeeper = reset_side p.safekeeper;
}

unfoldable pub set_health_check_interval : ℕ → ConnectionPool → ConnectionPool
set_health_check_interval interval p = record p { health_check_interval = interval }

unfoldable pub set_pool_limits : ℕ → ℕ → ℕ → ℕ → ConnectionPool → ConnectionPool
set_pool_limits min_pageserver max_pageserver min_safekeeper max_safekeeper p = record p {
  pageserver = record (p.pageserver) {
    min_connections = min_pageserver;
    max_connections = max_pageserver;
  };
  safekeeper = record (p.safekeeper) {
    min_connections = min_safekeeper;
    max_connections = max_safekeeper;
  };
}

-- A pool with a minimum of at least one pageserver, initialised with its first construction of a
-- client returning, cannot be shut down: the call has no defined result.
pub initialize_then_shutdown :
    (e : Constructs) (starts : Bool) (p q : ConnectionPool) (done : Bool)
    → 0 < p.pageserver.min_connections
    → e.pages p.pageserver.heap.next ≡ true
    → initialize e starts p ≡ some (done, q)
    → shutdown q ≡ none
unfolding initialize shutdown
initialize_then_shutdown e starts p q done positive returns result =
    rw (← same) (rw ((warm_then_shutdown e.pages p.pageserver positive returns).0, ◌>>=◌))
  where
    same : warm_pageserver_connections e.pages p.pageserver ≡ q.pageserver
    same = ground arith
