-- ===== src/Handler/Hits.antt =====
-- src/ha_serverless.cc: reads that the cache answers, and a close that has nothing to write.
use mariadb_serverless_engin.Base.{ℕ, ◌≡◌, refl, ap, ◌∙◌, List, none, some, take, ◌>>=◌, pos}
use mariadb_serverless_engin.Types.{PageId}
use mariadb_serverless_engin.Timeline.{page_key}
use mariadb_serverless_engin.ConnectionPool.{ConnectionPool, get_pageserver_connection}
use mariadb_serverless_engin.Sockets.{Sockets}
use mariadb_serverless_engin.PageserverClient.{Curl, read_page}
use mariadb_serverless_engin.PageCache.{Cache, find, assign, new_cached_page, mariadb_page_size}
use mariadb_serverless_engin.PageCache.Invariant.{
  IsCoherent, touched, look_up-hit, look_up-miss, add_page-IsCoherent, flush_all-IsClean,
}
use mariadb_serverless_engin.Engine.{Engine, Handler, ok, count_call, count_latency}
use mariadb_serverless_engin.Handler.{Moment}
use mariadb_serverless_engin.Handler.Reading.{
  flush, close, cache_page, return_to_pool, after_read, after_get, fetch,
  read_page_from_cache_or_pageserver,
}

module _ (curl : Curl) (net : Sockets) where
  -- Closing a table whose cache is coherent succeeds and writes nothing to a safekeeper.
  pub close-IsCoherent :
      (now : Moment) (h : Handler) (e : Engine curl net)
      → IsCoherent h.cache
      → close curl net now h e ≡ some (ok, h, e)
  unfolding close
  close-IsCoherent now h e v = rw (
    flush_all-IsClean (flush curl net now h.current_timeline) h.cache.page_cache
        (some (h.current_lsn, e)) v.clean,
    ◌>>=◌,
  )

  cache_page-some :
      (now : Moment) (page_id : PageId) (buffer : List ℕ) (h : Handler) (e : Engine curl net)
      → IsCoherent h.cache
      → (c' : Cache) × (cache_page curl net now page_id buffer h e
          ≡ some (record h { cache = c' }, e))
        × (find (page_key page_id) c'.page_cache
            ≡ some (new_cached_page page_id (take mariadb_page_size buffer) now.now))
  unfolding cache_page new_cached_page
  cache_page-some now page_id buffer h e v =
      let page = new_cached_page page_id (take mariadb_page_size buffer) now.now in
      let (c', added, v', found) =
        add_page-IsCoherent (flush curl net now h.current_timeline) (page_key page_id) page h.cache
          (some (h.current_lsn, e)) v refl in
      (c', rw (added, ◌>>=◌), found)

  fetch-some :
      (now : Moment) (p : PageId) (buffer bytes : List ℕ) (h : Handler) (e : Engine curl net)
      (pool pool' : ConnectionPool) (n : ℕ) (w : curl.World)
      → IsCoherent h.cache
      → e.pool ≡ some pool
      → get_pageserver_connection now.constructs now.other_pages pool ≡ (some n, pool')
      → read_page curl p buffer mariadb_page_size (e.pages n) e.curl_world ≡ (pos 0, bytes, w)
      → (c' : Cache) × (e' : Engine curl net) × (fetch curl net now p buffer h e
          ≡ some (ok, bytes, record h { cache = c' }, e'))
        × (find (page_key p) c'.page_cache
            ≡ some (new_cached_page p (take mariadb_page_size bytes) now.now))
  unfolding fetch after_get after_read
  fetch-some now p buffer bytes h e pool pool' n w v there got answered =
      let called = record e { perf_stats = count_call e.perf_stats } in
      let held = record called { pool = some pool' } in
      let paid = record held {
        curl_world = w;
        perf_stats = count_latency now.latency held.perf_stats;
      } in
      let (c', cached, found) = cache_page-some now p bytes h paid v in
      let stored : after_read curl net now p n h held (pos 0, bytes, w)
          ≡ some (ok, bytes, record h { cache = c' }, return_to_pool curl net n paid) =
        ap (λ m. m >>= λ (h', e''). some (ok, bytes, h', return_to_pool curl net n e'')) cached in
      (
        c',
        return_to_pool curl net n paid,
        ap
              (λ m. m >>= λ pool.
                after_get curl net now p buffer h called
                  (get_pageserver_connection now.constructs now.other_pages pool))
              there
            ∙ ap (after_get curl net now p buffer h called) got
            ∙ ap (after_read curl net now p n h held) answered
            ∙ stored,
        found,
      )

  -- Let the cache be coherent and not have the key of a page, the pool give a connection, and the
  -- pageserver the page. Then the read succeeds, and the next read of a page with the same key,
  -- of whatever timeline, succeeds with the same bytes, at most 16384, and leaves the pool, the
  -- clients and the network alone.
  pub read_then_hit :
      (now now' : Moment) (p q : PageId) (buffer bytes other : List ℕ) (h : Handler)
      (e : Engine curl net) (pool pool' : ConnectionPool) (n : ℕ) (w : curl.World)
      → IsCoherent h.cache
      → find (page_key p) h.cache.page_cache ≡ none
      → e.pool ≡ some pool
      → get_pageserver_connection now.constructs now.other_pages pool ≡ (some n, pool')
      → read_page curl p buffer mariadb_page_size (e.pages n) e.curl_world ≡ (pos 0, bytes, w)
      → page_key q ≡ page_key p
      → (h' : Handler) × (e' : Engine curl net) × (h'' : Handler)
        × (read_page_from_cache_or_pageserver curl net now p buffer h e ≡ some (ok, bytes, h', e'))
        × (read_page_from_cache_or_pageserver curl net now' q other h' e'
            ≡ some (ok, take mariadb_page_size bytes, h'', e'))
  unfolding read_page_from_cache_or_pageserver new_cached_page
  read_then_hit now now' p q buffer bytes other h e pool pool' n w v missed there got answered
        same =
      let (c', e', fetched, found) =
        fetch-some now p buffer bytes h e pool pool' n w v there got answered in
      let page = new_cached_page p (take mariadb_page_size bytes) now.now in
      let hit_cache = record c' {
        page_cache = assign (page_key q) (touched now'.now page) c'.page_cache;
      } in
      let hit =
        look_up-hit (page_key q) now'.now c' page (ap (λ k. find k c'.page_cache) same ∙ found) in
      (
        record h { cache = c' },
        e',
        record h { cache = hit_cache },
        rw (
          look_up-miss (page_key p) now.now h.cache missed,
          fetched,
          read_page_from_cache_or_pageserver,
        ),
        rw (hit, read_page_from_cache_or_pageserver),
      )
