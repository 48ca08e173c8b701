-- ===== src/Handler/Frame.antt =====
-- src/ha_serverless.cc: reads of pages against changes of rows, which share a handler and the engine.
use mariadb_serverless_engin.Base.{
  ℕ, ◌≡◌, refl, ap, ◌∙◌, true, List, ◌∷◌, ◌++◌, Option, none, some, arith, length, leb, take, ◌>>=◌,
  Bool-cases, Option-cases, inl, inr, ℤ, is_nat,
}
use mariadb_serverless_engin.Types.{PageId}
use mariadb_serverless_engin.Timeline.{page_key}
use mariadb_serverless_engin.Pool.{Ptr}
use mariadb_serverless_engin.ConnectionPool.{ConnectionPool, get_pageserver_connection}
use mariadb_serverless_engin.Sockets.{Sockets}
use mariadb_serverless_engin.SafekeeperClient.{Client}
use mariadb_serverless_engin.PageserverClient.{Curl, read_page}
use mariadb_serverless_engin.PageCache.{
  CachedPage, Cache, erase, assign, remove, look_up, add_page, new_cached_page, max_cached_pages,
  mariadb_page_size,
}
use mariadb_serverless_engin.PageCache.Invariant.{IsCoherent, oldest, evict-IsCoherent}
use mariadb_serverless_engin.PageCache.Fifo.{evict-cached}
use mariadb_serverless_engin.Engine.{
  Engine, Handler, HaResult, PerformanceStats, ok, ha_err_generic, count_call, count_latency,
}
use mariadb_serverless_engin.Handler.{Moment}
use mariadb_serverless_engin.Handler.Reading.{
  flush, cache_page, return_to_pool, client_result, after_read, after_get, fetch,
  read_page_from_cache_or_pageserver,
}
use mariadb_serverless_engin.Handler.Rows.{RowOp, lsn_after, requests, row_ops, rows_logged, queued}

-- Adding a page to a coherent cache makes the same cache whatever the rest of the program is, and
-- leaves that alone.
add_page-any {ℓ} :
    {S : Type ℓ} (write : PageId → List ℕ → S → S) (key : ℕ) (page : CachedPage) (c : Cache)
    → IsCoherent c
    → S
    → (c' : Cache) × ((s : S) → add_page write key page c s ≡ some (c', s))
unfolding add_page
add_page-any write key page c v here =
    elim (Bool-cases (leb max_cached_pages (length c.page_cache))) [
      | inr room ↦ (
        record { page_cache = assign key page c.page_cache; lru_list = key ∷ c.lru_list },
        λ s. rw (room, ◌>>=◌) refl,
      )
      | inl full ↦
          let (last, at_back, old) = oldest write c v (ground arith) in
          (
            record {
              page_cache = assign key page (erase last c.page_cache);
              lru_list = key ∷ remove last c.lru_list;
            },
            λ s.
                rw
                  (
                    full,
                    at_back,
                    ◌>>=◌,
                    evict-cached write last c s old,
                    (evict-IsCoherent write last c s v old).1,
                  )
                  refl,
          )
    ]

module _ (curl : Curl) (net : Sockets) where
  abbrev pub with_lsn : ℕ → Handler → Handler
  with_lsn lsn h = record h { current_lsn = lsn }

  abbrev pub with_keeper : Option Client → Engine curl net → Engine curl net
  with_keeper keeper e = record e { legacy_keeper = keeper }

  -- What a read makes of a handler and the engine: a result and bytes, and a new cache, pool, world
  -- of libcurl and statistics. The rest stays.
  abbrev Outcome : Type 0
  Outcome =
      Option (HaResult × List ℕ × Cache × Option ConnectionPool × curl.World × PerformanceStats)

  abbrev told :
      Handler → Engine curl net → Outcome → Option (HaResult × List ℕ × Handler × Engine curl net)
  told h e none = none
  told h e (some (result, bytes, c, pool, w, stats)) = some (
    result,
    bytes,
    record h { cache = c },
    record e { pool = pool; curl_world = w; perf_stats = stats },
  )

  cache_page-any :
      (now : Moment) (p : PageId) (buffer : List ℕ) (h : Handler) (e : Engine curl net)
      → IsCoherent h.cache
      → (c' : Cache) × ((lsn : ℕ) (keeper : Option Client)
          → cache_page curl net now p buffer (with_lsn lsn h) (with_keeper keeper e)
            ≡ some (with_lsn lsn (record h { cache = c' }), with_keeper keeper e))
  unfolding cache_page
  cache_page-any now p buffer h e v =
      let page = new_cached_page p (take mariadb_page_size buffer) now.now in
      let (c', added) =
        add_page-any (flush curl net now h.current_timeline) (page_key p) page h.cache v
          (some (h.current_lsn, e)) in
      (c', λ lsn keeper. rw (added (some (lsn, with_keeper keeper e)), ◌>>=◌) refl)

  after_read-told :
      (now : Moment) (p : PageId) (n : ℕ) (h : Handler) (e : Engine curl net) (result : ℤ)
      (buffer : List ℕ) (w : curl.World)
      → IsCoherent h.cache
      → (o : Outcome) × ((lsn : ℕ) (keeper : Option Client)
          → after_read curl net now p n (with_lsn lsn h) (with_keeper keeper e) (result, buffer, w)
            ≡ told (with_lsn lsn h) (with_keeper keeper e) o)
  unfolding after_read
  after_read-told now p n h e result buffer w v =
      let stats = count_latency now.latency e.perf_stats in
      let e' = record e { curl_world = w; perf_stats = stats } in
      let pool = (return_to_pool curl net n e').pool in
      let (c', cached) = cache_page-any now p buffer h e' v in
      elim (Bool-cases (is_nat result 0)) [
        | inl got ↦ (
          some (ok, buffer, c', pool, w, stats),
          λ lsn keeper. rw (got, cached lsn keeper, ◌>>=◌) refl,
        )
        | inr failed ↦ (
          some (client_result result, buffer, h.cache, pool, w, stats),
          λ lsn keeper. rw failed refl,
        )
      ]

  after_get-told :
      (now : Moment) (p : PageId) (buffer : List ℕ) (h : Handler) (e : Engine curl net)
      (got : Ptr × ConnectionPool)
      → IsCoherent h.cache
      → (o : Outcome) × ((lsn : ℕ) (keeper : Option Client)
          → after_get curl net now p buffer (with_lsn lsn h) (with_keeper keeper e) got
            ≡ told (with_lsn lsn h) (with_keeper keeper e) o)
  unfolding after_get
  after_get-told now p buffer h e (none, pool) v = (
    some (ha_err_generic, buffer, h.cache, some pool, e.curl_world, e.perf_stats),
    λ lsn keeper. refl,
  )
  after_get-told now p buffer h e (some n, pool) v =
      let (result, bytes, w) = read_page curl p buffer mariadb_page_size (e.pages n) e.curl_world in
      after_read-told now p n h (record e { pool = some pool }) result bytes w v

  -- The statistics that were there before are replaced.
  told_over :
      (h : Handler) (e : Engine curl net) (stats : PerformanceStats) (o : Outcome)
      → told h (record e { perf_stats = stats }) o ≡ told h e o
  told_over h e stats none = refl
  told_over h e stats (some (result, bytes, c, pool, w, stats')) = refl

  pub read-told :
      (now : Moment) (p : PageId) (buffer : List ℕ) (h : Handler) (e : Engine curl net)
      → IsCoherent h.cache
      → (o : Outcome) × ((lsn : ℕ) (keeper : Option Client)
          → read_page_from_cache_or_pageserver curl net now p buffer
              (with_lsn lsn h)
              (with_keeper keeper e)
            ≡ told (with_lsn lsn h) (with_keeper keeper e) o)
  unfolding read_page_from_cache_or_pageserver fetch
  read-told now p buffer h e v = elim (Option-cases (look_up (page_key p) now.now h.cache)) [
    | inr ((bytes, c'), hit) ↦ (
      some (ok, bytes, c', e.pool, e.curl_world, e.perf_stats),
      λ lsn keeper. rw (hit, read_page_from_cache_or_pageserver) refl,
    )
    | inl miss ↦ elim (Option-cases e.pool) [
      | inl nowhere ↦
          (none, λ lsn keeper. rw (miss, read_page_from_cache_or_pageserver, nowhere, ◌>>=◌) refl)
      | inr (pool, there) ↦
          let called = record e { perf_stats = count_call e.perf_stats } in
          let (o, law) =
            after_get-told now p buffer h called
              (get_pageserver_connection now.constructs now.other_pages pool) v in
          (
            o,
            λ lsn keeper.
                rw (miss, read_page_from_cache_or_pageserver)
                  (ap
                      (λ m. m >>= λ pool'.
                        after_get curl net now p buffer (with_lsn lsn h) (with_keeper keeper called)
                          (get_pageserver_connection now.constructs now.other_pages pool'))
                      there
                    ∙ law lsn keeper
                    ∙ told_over (with_lsn lsn h) (with_keeper keeper e) (count_call e.perf_stats)
                        o),
          )
    ]
  ]

  rows_then_told :
      (reclength : ℕ) (ops : List RowOp) (h : Handler) (e : Engine curl net) (keeper : Client)
      (o : Outcome)
      → h.has_keeper ≡ true
      → e.legacy_keeper ≡ some keeper
      → told
          (with_lsn (lsn_after h.current_lsn ops) h)
          (queued curl net keeper (requests h.current_timeline h.current_lsn reclength ops) e)
          o
        ≡ (told h e o >>= λ (result, bytes, h', e').
            row_ops curl net reclength ops h' e' >>= λ (h'', e''). some (result, bytes, h'', e''))
  rows_then_told reclength ops h e keeper none set there = refl
  rows_then_told reclength ops h e keeper (some (result, bytes, c, pool, w, stats)) set there =
      rw
        (rows_logged curl net reclength ops (record h { cache = c })
          (record e { pool = pool; curl_world = w; perf_stats = stats }) keeper set there)
        refl

  -- Let the cache of a handler with a safekeeper be coherent. Then row operations and the read of a
  -- page commute: rows changed first and the page read then, or the page read first and the rows
  -- changed then, either both have no defined result, or have the same result and bytes of the
  -- read, and leave the same handler and the same engine.
  pub rows_read_commute :
      (now : Moment) (p : PageId) (buffer : List ℕ) (reclength : ℕ) (ops : List RowOp) (h : Handler)
      (e : Engine curl net) (keeper : Client)
      → IsCoherent h.cache
      → h.has_keeper ≡ true
      → e.legacy_keeper ≡ some keeper
      → (row_ops curl net reclength ops h e >>= λ (h', e').
          read_page_from_cache_or_pageserver curl net now p buffer h' e')
        ≡ (read_page_from_cache_or_pageserver curl net now p buffer h e
            >>= λ (result, bytes, h', e'). row_ops curl net reclength ops h' e' >>= λ (h'', e'').
                some (result, bytes, h'', e''))
  rows_read_commute now p buffer reclength ops h e keeper v set there =
      let (o, law) = read-told now p buffer h e v in
      let queue = requests h.current_timeline h.current_lsn reclength ops in
      let first = law h.current_lsn e.legacy_keeper in
      rw (rows_logged curl net reclength ops h e keeper set there, ◌>>=◌, first)
        (law (lsn_after h.current_lsn ops)
            (some (record keeper { append_queue = keeper.append_queue ++ queue }))
          ∙ rows_then_told reclength ops h e keeper o set there)
