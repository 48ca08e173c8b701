-- ===== src/Plugin/Loaded.antt =====
-- src/ha_serverless.cc: what can be done with a plugin once it is loaded.
use mariadb_serverless_engin.Base.{
  ℕ, ◌≡◌, ◌<◌, refl, Bool, true, false, List, none, some, arith, inl, ◌>>=◌, [],
}
use mariadb_serverless_engin.Text.{codes}
use mariadb_serverless_engin.Pool.{init}
use mariadb_serverless_engin.Pool.Warm.{
  warm_pageserver_connections, warm_pageserver_connections-both,
}
use mariadb_serverless_engin.Pool.Shutdown.{warm_then_shutdown}
use mariadb_serverless_engin.Pool.Supply.{IsSupplied, warm-IsSupplied}
use mariadb_serverless_engin.ConnectionPool.{
  ConnectionPool, new_pool, warm_connections, initialize, shutdown,
}
use mariadb_serverless_engin.Sockets.{Sockets, IsPosix}
use mariadb_serverless_engin.SafekeeperClient.{new_client}
use mariadb_serverless_engin.SafekeeperClient.Connection.{localhost_named}
use mariadb_serverless_engin.PageserverClient.{Curl, new_pageserver_client, set_base_url}
use mariadb_serverless_engin.Engine.{Engine, HaResult, Handler}
use mariadb_serverless_engin.Handler.Creation.{IsNamed, create-fails}
use mariadb_serverless_engin.Handler.{Moment, create, is_ok, new_handler, initialize_timeline}
use mariadb_serverless_engin.Types.{TimelineId}
use mariadb_serverless_engin.Timeline.{hash_string}
use mariadb_serverless_engin.Handler.Rows.{
  RowOp, requests, lsn_after, queued, session, session-some,
}
use mariadb_serverless_engin.Plugin.{
  Load, with_pool, after_initialize, serverless_init_func, serverless_done_func,
}

module _ (curl : Curl) (net : Sockets) where
  after_initialize-IsNamed :
      (l : Load) (e : Engine curl net) (r : Bool × ConnectionPool)
      → IsNamed curl net (after_initialize curl net l e r).1
        × ((pool : ConnectionPool) × ((after_initialize curl net l e r).1.pool ≡ some pool))
  unfolding after_initialize with_pool new_client
  after_initialize-IsNamed l e (false, pool) =
      (record { named = λ n. localhost_named; down = λ n. refl }, (pool, refl))
  after_initialize-IsNamed l e (true, pool) = (
    record { named = λ n. localhost_named; down = λ n. refl },
    (warm_connections l.constructs pool, refl),
  )

  -- The pool once it is initialised.
  initialized : Load → ConnectionPool
  initialized l = record (warm_connections l.constructs (new_pool 5 20 3 10)) {
    health_check_running = true;
    thread_joinable = l.starts;
  }

  initialize-new :
      (l : Load)
      → initialize l.constructs l.starts (new_pool 5 20 3 10) ≡ some (l.starts, initialized l)
  unfolding initialize initialized new_pool warm_connections
  initialize-new l = ground arith

  -- The second warm-up of the new pool's pageserver side.
  shutdown-warm_twice :
      (l : Load)
      → l.constructs.pages 5 ≡ true
      → shutdown (warm_connections l.constructs (initialized l)) ≡ none
  unfolding initialized new_pool warm_connections shutdown init
  shutdown-warm_twice l sixth =
      let first =
        warm_pageserver_connections-both l.constructs.pages (new_pool 5 20 3 10).pageserver in
      let side = warm_pageserver_connections l.constructs.pages (new_pool 5 20 3 10).pageserver in
      let positive : 0 < side.min_connections = rw first (omega arith) in
      let returns : l.constructs.pages side.heap.next ≡ true = rw first sixth in
      rw ((warm_then_shutdown l.constructs.pages side positive returns).0, ◌>>=◌)

  -- Loading has a defined result, and leaves a pool whose safekeepers have the name of their host.
  pub loaded-IsNamed :
      (l : Load) (e : Engine curl net)
      → (loaded : ℕ) × (e' : Engine curl net) × (pool : ConnectionPool) × (serverless_init_func curl
            net l e
          ≡ some (loaded, e'))
        × IsNamed curl net e'
        × (e'.pool ≡ some pool)
  unfolding serverless_init_func
  loaded-IsNamed l e =
      let r : Bool × ConnectionPool = (l.starts, initialized l) in
      let (v, (pool, there)) = after_initialize-IsNamed l e r in
      let started = initialize-new l in
      (
        (after_initialize curl net l e r).0,
        (after_initialize curl net l e r).1,
        pool,
        rw (started, ◌>>=◌),
        v,
        there,
      )

  after_initialize-IsSupplied :
      (l : Load) (e : Engine curl net) (r : Bool × ConnectionPool)
      → IsSupplied r.1.pageserver
      → l.has_handle ≡ true
      → (pool : ConnectionPool) × ((after_initialize curl net l e r).1.pool ≡ some pool)
        × IsSupplied pool.pageserver
        × ((n : ℕ) → ((after_initialize curl net l e r).1.pages n).has_handle ≡ true)
        × ((n : ℕ)
            → ((after_initialize curl net l e r).1.pages n).base_url
              ≡ codes "http://localhost:9997")
  unfolding after_initialize with_pool new_pageserver_client set_base_url warm_connections
  after_initialize-IsSupplied l e (false, pool) v handle = (pool, refl, v, λ n. handle, λ n. refl)
  after_initialize-IsSupplied l e (true, pool) v handle = (
    warm_connections l.constructs pool,
    refl,
    warm-IsSupplied l.constructs.pages pool.pageserver v,
    λ n. handle,
    λ n. refl,
  )

  -- Loading leaves a pool that can give pageserver connections, whose clients have handles if libcurl
  -- gives them.
  after_initialize-perf_stats :
      (l : Load) (e : Engine curl net) (r : Bool × ConnectionPool)
      → (after_initialize curl net l e r).1.perf_stats ≡ e.perf_stats
  unfolding after_initialize with_pool
  after_initialize-perf_stats l e (false, pool) = refl
  after_initialize-perf_stats l e (true, pool) = refl

  pub loaded-IsSupplied :
      (l : Load) (e : Engine curl net)
      → l.has_handle ≡ true
      → (loaded : ℕ) × (e' : Engine curl net) × (pool : ConnectionPool) × (serverless_init_func curl
            net l e
          ≡ some (loaded, e'))
        × (e'.pool ≡ some pool)
        × IsSupplied pool.pageserver
        × ((n : ℕ) → (e'.pages n).has_handle ≡ true)
        × ((n : ℕ) → (e'.pages n).base_url ≡ codes "http://localhost:9997")
        × (e'.perf_stats ≡ e.perf_stats)
  unfolding serverless_init_func initialized warm_connections new_pool init
  loaded-IsSupplied l e handle =
      let r : Bool × ConnectionPool = (l.starts, initialized l) in
      let fresh : IsSupplied (new_pool 5 20 3 10).pageserver = record {
        queued = tt;
        managed = tt;
        positive = omega arith;
        room = inl (omega arith);
      } in
      let v : IsSupplied (initialized l).pageserver =
        warm-IsSupplied l.constructs.pages (new_pool 5 20 3 10).pageserver fresh in
      let (pool, there, supplied, handles, urls) = after_initialize-IsSupplied l e r v handle in
      let started = initialize-new l in
      (
        (after_initialize curl net l e r).0,
        (after_initialize curl net l e r).1,
        pool,
        rw (started, ◌>>=◌),
        there,
        supplied,
        handles,
        urls,
        after_initialize-perf_stats l e r,
      )

  -- Where `inet_pton` is as documented, loading the plugin has a defined result, and the creation
  -- of a table right after it has one too and fails, whichever table is asked for and whatever
  -- the servers answer.
  pub load_then_create-fails :
      (posix : IsPosix net) (l : Load) (now : Moment) (name : List ℕ) (e : Engine curl net)
      → (loaded : ℕ) × (e' : Engine curl net) × (result : HaResult) × (e'' : Engine curl net)
        × (serverless_init_func curl net l e ≡ some (loaded, e'))
        × (create curl net now name e' ≡ some (result, e''))
        × (is_ok result ≡ false)
  load_then_create-fails posix l now name e =
      let (loaded, e', pool, done, v, there) = loaded-IsNamed l e in
      let (result, e'', made, failed, _) = create-fails curl net posix now name e' pool v there in
      (loaded, e', result, e'', done, made, failed)

  -- If the health thread starts and the sixth construction of a pageserver client returns, the
  -- plugin loads with success, and unloading it right after has no defined result: it deletes a
  -- client a second time.
  pub load_then_unload :
      (l : Load) (e : Engine curl net)
      → l.starts ≡ true
      → l.constructs.pages 5 ≡ true
      → (e' : Engine curl net) × (serverless_init_func curl net l e ≡ some (0, e'))
        × (serverless_done_func curl net e' ≡ none)
  unfolding serverless_init_func serverless_done_func after_initialize with_pool
  load_then_unload l e starts sixth = (
    (after_initialize curl net l e (true, initialized l)).1,
    rw (initialize-new l, starts, ◌>>=◌),
    rw (shutdown-warm_twice l sixth, ◌>>=◌),
  )

  -- A plugin that is loaded with success has its safekeeper client, and so have the handlers made
  -- after that.
  pub loaded-keeper :
      (l : Load) (e : Engine curl net)
      → l.starts ≡ true
      → (e' : Engine curl net) × (serverless_init_func curl net l e ≡ some (0, e'))
        × (e'.legacy_keeper ≡ some (new_client (codes "localhost") 5433))
        × ((index : ℕ) → (new_handler curl net index e').has_keeper ≡ true)
  unfolding serverless_init_func after_initialize with_pool new_handler
  loaded-keeper l e starts = (
    (after_initialize curl net l e (true, initialized l)).1,
    rw (initialize-new l, starts, ◌>>=◌),
    refl,
    λ index. refl,
  )

  -- If the health thread starts, the plugin loads with success, and a handler made after that can
  -- open a table and change its rows: all changes have a defined result and succeed, and their
  -- requests wait in the queue of the plugin's safekeeper client, which was empty, with sequence
  -- numbers from 1 on the table's timeline.
  pub load_then_session :
      (l : Load) (e : Engine curl net) (index reclength : ℕ) (name : List ℕ) (ops : List RowOp)
      → l.starts ≡ true
      → let t : TimelineId = record { id = hash_string name } in
        let keeper = new_client (codes "localhost") 5433 in
        (e' : Engine curl net) × (h' : Handler) × (serverless_init_func curl net l e ≡ some (0, e'))
        × (keeper.append_queue ≡ [])
        × (session curl net reclength name ops (new_handler curl net index e') e'
            ≡ some (h', queued curl net keeper (requests t 1 reclength ops) e'))
  unfolding serverless_init_func after_initialize with_pool new_handler initialize_timeline
      new_client
  load_then_session l e index reclength name ops starts =
      let e' = (after_initialize curl net l e (true, initialized l)).1 in
      let h = new_handler curl net index e' in
      let keeper = new_client (codes "localhost") 5433 in
      let t : TimelineId = record { id = hash_string name } in
      (
        e',
        record h { current_timeline = t; current_lsn = lsn_after 1 ops },
        rw (initialize-new l, starts, ◌>>=◌),
        refl,
        session-some curl net reclength name ops h e' keeper refl refl,
      )
