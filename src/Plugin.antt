-- ===== src/Plugin.antt =====
-- src/ha_serverless.cc: the loading and the unloading of the plugin.
pub mod Loaded
pub mod Loss
pub mod Turns
pub mod Writes
pub mod Reads
pub mod Calls
pub mod Unload
use mariadb_serverless_engin.Base.{ℕ, List, [], ◌∷◌, Bool, true, false, Option, none, some, ◌>>=◌}
use mariadb_serverless_engin.Text.{codes}
use mariadb_serverless_engin.Pool.{Ptr}
use mariadb_serverless_engin.Pool.Ownership.{owned}
use mariadb_serverless_engin.ConnectionPool
use mariadb_serverless_engin.PageserverClient
use mariadb_serverless_engin.ConnectionPool.{
  ConnectionPool, Constructs, new_pool, warm_connections, initialize, shutdown,
}
use mariadb_serverless_engin.Sockets.{Sockets}
use mariadb_serverless_engin.SafekeeperClient.{Client, new_client}
use mariadb_serverless_engin.SafekeeperClient.Worker.{request_shutdown, destruct}
use mariadb_serverless_engin.PageserverClient.{Curl, PageserverClient, new_pageserver_client}
use mariadb_serverless_engin.Engine.{Engine, Handler}

-- What the environment decides at the loading: which constructions of pooled clients return,
-- whether the thread can be started, and whether libcurl gives a handle.
pub record Load : Type 0 where
  pub constructs : Constructs
  pub starts : Bool
  pub has_handle : Bool

module _ (curl : Curl) (net : Sockets) where
  -- Both kinds of client as `create_pageserver_connection` and `create_safekeeper_connection`
  -- make them, by their numbers in the new pool.
  unfoldable pub with_pool : Load → ConnectionPool → Engine curl net → Engine curl net
  with_pool l pool e = record e {
    pool = some pool;
    pages = λ n. new_pageserver_client l.has_handle (codes "http://localhost:9997") 30;
    keepers = λ n. new_client (codes "localhost") 5433;
  }

  -- The part from the result of `initialize` on; the result is that of the plugin's function.
  unfoldable pub after_initialize :
      Load → Engine curl net → Bool × ConnectionPool → ℕ × Engine curl net
  unfolding with_pool
  after_initialize l e (false, pool) = (1, with_pool l pool e)
  after_initialize l e (true, pool) = (
    0,
    record (with_pool l (warm_connections l.constructs pool) e) {
      legacy_pages = some (new_pageserver_client l.has_handle (codes "http://localhost:9997") 30);
      legacy_keeper = some (new_client (codes "localhost") 5433);
    },
  )

  -- Called where no pool is there, so that `reset` deletes none, and where the constructors of the
  -- legacy clients return. The fields of `handlerton`, set first, are `init_handlerton` of
  -- Handler/Interface.
  unfoldable pub serverless_init_func : Load → Engine curl net → Option (ℕ × Engine curl net)
  unfolding after_initialize
  serverless_init_func l e = initialize l.constructs l.starts (new_pool 5 20 3 10) >>= λ result.
      some (after_initialize l e result)

  -- The deletion of pooled clients, in order. A safekeeper client stops its worker, drops its queue
  -- and closes its socket.
  unfoldable pub delete_pages : List Ptr → (ℕ → PageserverClient) → curl.World → curl.World
  delete_pages [] pages w = w
  delete_pages (none ∷ ps) pages w = delete_pages ps pages w
  delete_pages (some n ∷ ps) pages w =
      delete_pages ps pages (PageserverClient.destruct curl (pages n) w)

  unfoldable pub delete_keepers : List Ptr → (ℕ → Client) → net.World → net.World
  delete_keepers [] keepers w = w
  delete_keepers (none ∷ ps) keepers w = delete_keepers ps keepers w
  delete_keepers (some n ∷ ps) keepers w =
      delete_keepers ps keepers (destruct net (request_shutdown (keepers n)) w).2

  -- `delete` of the two legacy clients, and the null pointers after it.
  unfoldable pub delete_legacy : Engine curl net → Engine curl net
  delete_legacy e = record e {
    legacy_pages = none;
    legacy_keeper = none;
    curl_world = elim e.legacy_pages [
      | none ↦ e.curl_world
      | some client ↦ PageserverClient.destruct curl client e.curl_world
    ];
    net_world = elim e.legacy_keeper [
      | none ↦ e.net_world
      | some keeper ↦ (destruct net (request_shutdown keeper) e.net_world).2
    ];
  }

  -- The shutdown deletes what each side owns, the queue first, and the destructor shuts the pool down
  -- once more.
  unfoldable pub serverless_done_func : Engine curl net → Option (Engine curl net)
  unfolding delete_pages delete_keepers delete_legacy
  serverless_done_func e = elim e.pool [
    | none ↦ some (delete_legacy e)
    | some pool ↦ shutdown pool >>= λ emptied. ConnectionPool.destruct emptied >>= λ gone. some (
        delete_legacy (record e {
          pool = none;
          curl_world = delete_pages (owned pool.pageserver) e.pages e.curl_world;
          net_world = delete_keepers (owned pool.safekeeper) e.keepers e.net_world;
        }))
  ]
