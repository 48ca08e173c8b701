-- ===== src/Handler/Reading.antt =====
-- src/ha_serverless.cc: how a handler reads a page, writes one, and closes.
use mariadb_serverless_engin.Base.{
  ℕ, ◌+◌, true, List, Option, none, some, take, if◌then◌else◌, ◌>>=◌, u64, ℤ, is_nat,
}
use mariadb_serverless_engin.Types.{PageId, TimelineId, WalRecord}
use mariadb_serverless_engin.Timeline.{page_key}
use mariadb_serverless_engin.Pool.{Ptr}
use mariadb_serverless_engin.Pool.Wrapper.{wrap, destruct}
use mariadb_serverless_engin.ConnectionPool.{
  ConnectionPool, get_pageserver_connection, get_safekeeper_connection,
}
use mariadb_serverless_engin.Sockets.{Sockets}
use mariadb_serverless_engin.SafekeeperClient.{append_wal_record}
use mariadb_serverless_engin.PageserverClient.{Curl, read_page}
use mariadb_serverless_engin.PageCache.{
  new_cached_page, look_up, add_page, flush_all, mariadb_page_size,
}
use mariadb_serverless_engin.Engine.{
  Engine, Handler, HaResult, ok, ha_err_generic, client_error, count_call, count_latency,
}
use mariadb_serverless_engin.Handler.{Moment, set_keeper}

-- The result of a client's call, passed on.
abbrev pub client_result : ℤ → HaResult
client_result result = if is_nat result 0 then ok else client_error

module _ (curl : Curl) (net : Sockets) where
  -- The write from what the pool gave on: a record of a whole page, whose bytes are given.
  unfoldable pub append_page :
      Moment
      → TimelineId
      → List ℕ
      → ℕ × Engine curl net
      → Ptr × ConnectionPool
      → Option (HaResult × ℕ × Engine curl net)
  unfolding set_keeper
  append_page now t bytes (lsn, e) (none, pool) =
      some (ha_err_generic, lsn, record e { pool = some pool })
  append_page now t bytes (lsn, e) (some n, pool) =
      let r : WalRecord = record { lsn = lsn; length = mariadb_page_size; address = 0 } in
      append_wal_record net t r (λ address. bytes) (e.keepers n) e.net_world >>= λ (result, c, w).
      let returned = destruct (wrap (some n) true) pool.safekeeper in
      let e' = record e {
        pool = some (record pool { safekeeper = returned });
        keepers = set_keeper curl net n c e.keepers;
        net_world = w;
        perf_stats = count_latency now.latency e.perf_stats;
      } in
      some (client_result result, u64 (lsn + 1), e')

  -- The current LSN goes in and out. The page's identity is not used.
  unfoldable pub write_page_to_safekeeper :
      Moment
      → TimelineId
      → PageId
      → List ℕ
      → ℕ × Engine curl net
      → Option (HaResult × ℕ × Engine curl net)
  unfolding append_page
  write_page_to_safekeeper now t page_id bytes (lsn, e) = e.pool >>= λ pool.
      append_page now t bytes (lsn, record e { perf_stats = count_call e.perf_stats })
        (get_safekeeper_connection now.constructs now.other_keepers pool)

  -- The writing of a dirty page, its result dropped.
  unfoldable pub flush :
      Moment
      → TimelineId
      → PageId
      → List ℕ
      → Option (ℕ × Engine curl net)
      → Option (ℕ × Engine curl net)
  unfolding write_page_to_safekeeper
  flush now t page_id bytes state = state >>= λ s.
      write_page_to_safekeeper now t page_id bytes s >>= λ (result, lsn, e). some (lsn, e)

  unfoldable pub close :
      Moment → Handler → Engine curl net → Option (HaResult × Handler × Engine curl net)
  unfolding flush
  close now h e =
      flush_all (flush now h.current_timeline) h.cache.page_cache (some (h.current_lsn, e))
      >>= λ (lsn, e'). some (ok, record h { current_lsn = lsn }, e')

  -- The critical section after a page was read.
  unfoldable pub cache_page :
      Moment → PageId → List ℕ → Handler → Engine curl net → Option (Handler × Engine curl net)
  unfolding flush
  cache_page now page_id buffer h e =
      let page = new_cached_page page_id (take mariadb_page_size buffer) now.now in
      add_page (flush now h.current_timeline) (page_key page_id) page h.cache
        (some (h.current_lsn, e))
      >>= λ (cache', state).
          state >>= λ (lsn, e'). some (record h { cache = cache'; current_lsn = lsn }, e')

  abbrev pub return_to_pool : ℕ → Engine curl net → Engine curl net
  return_to_pool n e = record e {
    pool = elim e.pool [
      | none ↦ none
      | some pool ↦
          some (record pool { pageserver = destruct (wrap (some n) true) pool.pageserver })
    ];
  }

  -- A miss, from the answer of the pageserver to the connection `n` on.
  unfoldable pub after_read :
      Moment
      → PageId
      → ℕ
      → Handler
      → Engine curl net
      → ℤ × List ℕ × curl.World
      → Option (HaResult × List ℕ × Handler × Engine curl net)
  unfolding cache_page
  after_read now page_id n h e (result, buffer, w) =
      let e' = record e { curl_world = w; perf_stats = count_latency now.latency e.perf_stats } in
      if is_nat result 0
      then (cache_page now page_id buffer h e' >>= λ (h', e'').
          some (ok, buffer, h', return_to_pool n e''))
      else some (client_result result, buffer, h, return_to_pool n e')

  -- A miss, with what the pool gave.
  unfoldable pub after_get :
      Moment
      → PageId
      → List ℕ
      → Handler
      → Engine curl net
      → Ptr × ConnectionPool
      → Option (HaResult × List ℕ × Handler × Engine curl net)
  unfolding after_read
  after_get now page_id buffer h e (none, pool) =
      some (ha_err_generic, buffer, h, record e { pool = some pool })
  after_get now page_id buffer h e (some n, pool) =
      after_read now page_id n h (record e { pool = some pool })
        (read_page curl page_id buffer mariadb_page_size (e.pages n) e.curl_world)

  -- A miss.
  unfoldable pub fetch :
      Moment
      → PageId
      → List ℕ
      → Handler
      → Engine curl net
      → Option (HaResult × List ℕ × Handler × Engine curl net)
  unfolding after_get
  fetch now page_id buffer h e = e.pool >>= λ pool.
      after_get now page_id buffer h (record e { perf_stats = count_call e.perf_stats })
        (get_pageserver_connection now.constructs now.other_pages pool)

  -- The result, the buffer, and what the call leaves. The copy out of the cache fills the buffer.
  unfoldable pub read_page_from_cache_or_pageserver :
      Moment
      → PageId
      → List ℕ
      → Handler
      → Engine curl net
      → Option (HaResult × List ℕ × Handler × Engine curl net)
  unfolding fetch
  read_page_from_cache_or_pageserver now page_id buffer h e =
      elim (look_up (page_key page_id) now.now h.cache) [
        | none ↦ fetch now page_id buffer h e
        | some (bytes, cache') ↦ some (ok, bytes, record h { cache = cache' }, e)
      ]
