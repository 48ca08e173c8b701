-- ===== src/Handler/Supplied.antt =====
-- src/ha_serverless.cc: reads by one handler, alone, from a pageserver that always answers.
use mariadb_serverless_engin.Base.{
  ℕ, ◌≡◌, refl, sym, ap, subst, true, false, List, Option, some, All, has, ◌>>=◌, Option-cases, inl,
  inr, is_nat, ℤ, take, some-inj, ◌∙◌, if◌then◌else◌,
}
use mariadb_serverless_engin.Types.{PageId}
use mariadb_serverless_engin.Timeline.{page_key}
use mariadb_serverless_engin.Pool.{Side, return_connection}
use mariadb_serverless_engin.Pool.Wrapper.{wrap, destruct, holds}
use mariadb_serverless_engin.Pool.Supply.{IsSupplied, IsHanding, get-IsHanding, return-IsSupplied}
use mariadb_serverless_engin.ConnectionPool.{ConnectionPool, get_pageserver_connection}
use mariadb_serverless_engin.Sockets.{Sockets}
use mariadb_serverless_engin.PageserverClient.{Curl, read_page}
use mariadb_serverless_engin.PageCache.{Cache, find, new_cached_page, mariadb_page_size}
use mariadb_serverless_engin.PageCache.Maps.{is_cached, is_cached-find, find-none}
use mariadb_serverless_engin.PageCache.Fifo.{IsFifo, access, look_up-IsFifo, add_page-IsFifo}
use mariadb_serverless_engin.PageCache.Invariant.{IsCoherent, look_up-miss}
use mariadb_serverless_engin.PageCache.Faithful.{IsNarrow, IsFaithful, look_up-served}
use mariadb_serverless_engin.Engine.{Engine, Handler, HaResult, ok, count_call, count_latency}
use mariadb_serverless_engin.Handler.{Moment}
use mariadb_serverless_engin.Handler.Reading.{
  flush, cache_page, return_to_pool, after_read, after_get, fetch,
  read_page_from_cache_or_pageserver,
}
use mariadb_serverless_engin.Handler.Served.{cache_page-IsReady}
use mariadb_serverless_engin.Handler.Answering.{IsAnswering, read-answered}
use mariadb_serverless_engin.Handler.Stores.{padded, length-padded}

-- No other thread uses the pool, and constructions of clients return.
pub record IsAlone (now : Moment) : Type 0 where
  pub alone : (s : Side) → now.other_pages s ≡ s
  pub constructs : (n : ℕ) → now.constructs.pages n ≡ true

module _ (curl : Curl) (net : Sockets) (base : List ℕ) (stored : PageId → List ℕ) where
  -- Where each read succeeds: the cache is right, the pool can give a connection, and clients have
  -- their handles and the base URL.
  pub record IsStocked (h : Handler) (e : Engine curl net) : Type 0 where
    pub coherent : IsCoherent h.cache
    pub faithful : All (IsFaithful (padded stored)) h.cache.page_cache
    pub pool : ConnectionPool
    pub there : e.pool ≡ some pool
    pub supplied : IsSupplied pool.pageserver
    pub handles : (n : ℕ) → (e.pages n).has_handle ≡ true
    pub urls : (n : ℕ) → (e.pages n).base_url ≡ base
    pub fifo : IsFifo h.cache

  -- A read that succeeds with the stored page, with the given count of network calls, and that the
  -- list of the cache takes as an access of its queue.
  pub record IsFulfilled (p : PageId) (h : Handler) (calls : ℕ)
      (r : Option (HaResult × List ℕ × Handler × Engine curl net)) : Type 0 where
    pub handler : Handler
    pub engine : Engine curl net
    pub returned : r ≡ some (ok, padded stored p, handler, engine)
    pub stocked : IsStocked handler engine
    pub counted : engine.perf_stats.network_calls ≡ calls
    pub queued : handler.cache.lru_list ≡ access (page_key p) h.cache.lru_list

  -- The critical section after a page was read that was not cached.
  cache_page-IsFifo :
      (now : Moment) (p : PageId) (bytes : List ℕ) (h h' : Handler) (e : Engine curl net)
      → IsCoherent h.cache
      → IsFifo h.cache
      → is_cached (page_key p) h.cache.page_cache ≡ false
      → cache_page curl net now p bytes h e ≡ some (h', e)
      → IsFifo h'.cache × (h'.cache.lru_list ≡ access (page_key p) h.cache.lru_list)
  unfolding cache_page
  cache_page-IsFifo now p bytes h h' e v f absent cached =
      let page = new_cached_page p (take mariadb_page_size bytes) now.now in
      let (c', added, fifo, queued) =
        add_page-IsFifo (flush curl net now h.current_timeline) (page_key p) page h.cache
          (some (h.current_lsn, e)) v f absent in
      let made : cache_page curl net now p bytes h e ≡ some (record h { cache = c' }, e) =
        rw (added, ◌>>=◌) in
      subst (λ (c : Cache). IsFifo c × (c.lru_list ≡ access (page_key p) h.cache.lru_list))
        (ap (λ (o : Handler × Engine curl net). o.0.cache) (some-inj (sym made ∙ cached)))
        (fifo, queued)

  module _ (answering : IsAnswering curl base stored) where
    -- From the answer of the pageserver on.
    after_read-IsFulfilled :
        (now : Moment) (p : PageId) (n : ℕ) (h : Handler) (e : Engine curl net) (result : ℤ)
        (buffer : List ℕ) (w : curl.World) (pool : ConnectionPool)
        → IsNarrow p
        → IsCoherent h.cache
        → All (IsFaithful (padded stored)) h.cache.page_cache
        → ((k : ℕ) → (e.pages k).has_handle ≡ true)
        → ((k : ℕ) → (e.pages k).base_url ≡ base)
        → e.pool ≡ some pool
        → IsHanding n pool.pageserver
        → is_nat result 0 ≡ true
        → buffer ≡ padded stored p
        → IsFifo h.cache
        → is_cached (page_key p) h.cache.page_cache ≡ false
        → IsFulfilled p h e.perf_stats.network_calls
            (after_read curl net now p n h e (result, buffer, w))
    unfolding after_read destruct holds wrap count_latency
    after_read-IsFulfilled now p n h e result buffer w pool narrow coherent faithful handles urls
          there handing success given fifo absent =
        let e' = record e { curl_world = w; perf_stats = count_latency now.latency e.perf_stats } in
        let (h', cached, v) =
          cache_page-IsReady curl net (padded stored) now p h e'
            (length-padded stored p (answering.sized p narrow)) narrow
            (record { coherent = coherent; faithful = faithful; pool = pool; there = there }) in
        let (fifo', queued) =
          cache_page-IsFifo now p (padded stored p) h h' e' coherent fifo absent cached in
        record {
          handler = h';
          engine = return_to_pool curl net n e';
          returned = rw (success, given, cached, ◌>>=◌, after_read);
          stocked = record {
            coherent = v.coherent;
            faithful = v.faithful;
            pool = record pool { pageserver = return_connection (some n) pool.pageserver };
            there = rw there;
            supplied = return-IsSupplied n pool.pageserver handing;
            handles = handles;
            urls = urls;
            fifo = fifo';
          };
          counted = refl;
          queued = queued;
        }

    -- With a connection of the pool at hand.
    after_get-IsFulfilled :
        (now : Moment) (p : PageId) (buffer : List ℕ) (h : Handler) (e : Engine curl net) (n : ℕ)
        (pool : ConnectionPool)
        → IsNarrow p
        → IsCoherent h.cache
        → All (IsFaithful (padded stored)) h.cache.page_cache
        → ((k : ℕ) → (e.pages k).has_handle ≡ true)
        → ((k : ℕ) → (e.pages k).base_url ≡ base)
        → IsHanding n pool.pageserver
        → IsFifo h.cache
        → is_cached (page_key p) h.cache.page_cache ≡ false
        → IsFulfilled p h e.perf_stats.network_calls
            (after_get curl net now p buffer h e (some n, pool))
    unfolding after_get
    after_get-IsFulfilled now p buffer h e n pool narrow coherent faithful handles urls handing fifo
          absent =
        let answer = read_page curl p buffer mariadb_page_size (e.pages n) e.curl_world in
        let (success, given) =
          read-answered curl base stored answering p buffer (e.pages n) e.curl_world narrow (urls n)
            (handles n) in
        after_read-IsFulfilled now p n h (record e { pool = some pool }) answer.0 answer.1 answer.2
          pool narrow coherent faithful handles urls refl handing success given fifo absent

    pub read_page_from_cache_or_pageserver-IsFulfilled :
        (now : Moment) (p : PageId) (buffer : List ℕ) (h : Handler) (e : Engine curl net)
        → IsAlone now
        → IsNarrow p
        → IsStocked h e
        → IsFulfilled p h
            (if has (page_key p) h.cache.lru_list
              then e.perf_stats
              else count_call e.perf_stats).network_calls
            (read_page_from_cache_or_pageserver curl net now p buffer h e)
    unfolding read_page_from_cache_or_pageserver fetch get_pageserver_connection
    read_page_from_cache_or_pageserver-IsFulfilled now p buffer h e alone narrow v =
        elim (Option-cases (find (page_key p) h.cache.page_cache)) [
          | inl miss ↦
              let absent = find-none (page_key p) h.cache.page_cache miss in
              let called = record e { perf_stats = count_call e.perf_stats } in
              let (n, s, got, handing) =
                get-IsHanding now.constructs.pages alone.constructs now.other_pages
                  v.pool.pageserver alone.alone v.supplied in
              rw
                (
                  look_up-miss (page_key p) now.now h.cache miss,
                  read_page_from_cache_or_pageserver,
                  v.there,
                  ◌>>=◌,
                  got,
                  v.coherent.listed (page_key p) ∙ absent,
                )
                (after_get-IsFulfilled now p buffer h called n (record (v.pool) { pageserver = s })
                  narrow v.coherent v.faithful v.handles v.urls handing v.fifo absent)
          | inr (page, hit) ↦
              let (c', found, coherent, faithful) =
                look_up-served (padded stored) p now.now h.cache page narrow v.coherent v.faithful
                  hit in
              let (fifo, queued) =
                look_up-IsFifo (page_key p) now.now h.cache c' (padded stored p) page v.coherent
                  v.fifo hit found in
              record {
                handler = record h { cache = c' };
                engine = e;
                returned = rw (found, read_page_from_cache_or_pageserver);
                stocked = record {
                  coherent = coherent;
                  faithful = faithful;
                  pool = v.pool;
                  there = v.there;
                  supplied = v.supplied;
                  handles = v.handles;
                  urls = v.urls;
                  fifo = fifo;
                };
                counted = rw (
                    v.coherent.listed (page_key p)
                    ∙ is_cached-find (page_key p) h.cache.page_cache hit);
                queued = queued;
              }
        ]
