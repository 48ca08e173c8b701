-- ===== src/Handler/Served.antt =====
-- src/ha_serverless.cc: reading through the cache is reading from the pageserver, for the pages that
-- their keys tell apart.
use mariadb_serverless_engin.Base.{
  ℕ, zero, suc, ◌≤◌, ◌≡◌, refl, ap, true, List, [], ◌∷◌, Option, none, some, take, All, length,
  ◌>>=◌, Option-cases, Bool-cases, inl, inr, arith, is_nat, ℤ,
}
use mariadb_serverless_engin.Types.{PageId}
use mariadb_serverless_engin.Timeline.{page_key}
use mariadb_serverless_engin.Pool.{Ptr}
use mariadb_serverless_engin.Pool.Wrapper.{wrap, destruct}
use mariadb_serverless_engin.ConnectionPool.{ConnectionPool, get_pageserver_connection}
use mariadb_serverless_engin.Sockets.{Sockets}
use mariadb_serverless_engin.PageserverClient.{Curl, PageserverClient, read_page}
use mariadb_serverless_engin.PageCache.{find, new_cached_page, mariadb_page_size}
use mariadb_serverless_engin.PageCache.Invariant.{IsCoherent, look_up-miss, add_page-IsCoherent}
use mariadb_serverless_engin.PageCache.Faithful.{
  IsNarrow, IsFaithful, look_up-served, add_page-IsFaithful,
}
use mariadb_serverless_engin.Engine.{
  Engine, Handler, HaResult, ok, ha_err_generic, client_error, count_call, count_latency,
}
use mariadb_serverless_engin.Handler.{Moment, is_ok}
use mariadb_serverless_engin.Handler.Reading.{
  flush, cache_page, return_to_pool, after_read, after_get, fetch,
  read_page_from_cache_or_pageserver,
}

-- The pageserver gives every client, whenever it gives a page, the same bytes, and a page at most.
pub record IsServing (curl : Curl) (served : PageId → List ℕ) : Type 0 where
  pub stable :
      (p : PageId) (buffer : List ℕ) (c : PageserverClient) (w : curl.World)
      → is_nat (read_page curl p buffer mariadb_page_size c w).0 0 ≡ true
      → (read_page curl p buffer mariadb_page_size c w).1 ≡ served p
  pub sized : (p : PageId) → length (served p) ≤ mariadb_page_size

take_whole : (n : ℕ) (xs : List ℕ) → length xs ≤ n → take n xs ≡ xs
take_whole zero [] h = refl
take_whole zero (x ∷ xs) h = absurd (omega arith)
take_whole (suc n) [] h = refl
take_whole (suc n) (x ∷ xs) h = ap (◌∷◌ x) (take_whole n xs (omega arith))

module _ (curl : Curl) (net : Sockets) (served : PageId → List ℕ) where
  -- Where a read can start, and where it ends: there is a pool, and the cache is coherent and
  -- faithful.
  pub record IsReady (h : Handler) (e : Engine curl net) : Type 0 where
    pub coherent : IsCoherent h.cache
    pub faithful : All (IsFaithful served) h.cache.page_cache
    pub pool : ConnectionPool
    pub there : e.pool ≡ some pool

  -- What a read of a page comes to: a result with the buffer, which is what the server has of the
  -- page if the result is success.
  pub record IsServed (p : PageId) (r : Option (HaResult × List ℕ × Handler × Engine curl net))
      : Type 0 where
    pub result : HaResult
    pub bytes : List ℕ
    pub handler : Handler
    pub engine : Engine curl net
    pub returned : r ≡ some (result, bytes, handler, engine)
    pub ready : IsReady handler engine
    pub right : is_ok result ≡ true → bytes ≡ served p

  pub cache_page-IsReady :
      (now : Moment) (p : PageId) (h : Handler) (e : Engine curl net)
      → length (served p) ≤ mariadb_page_size
      → IsNarrow p
      → IsReady h e
      → (h' : Handler) × (cache_page curl net now p (served p) h e ≡ some (h', e)) × IsReady h' e
  unfolding cache_page new_cached_page
  cache_page-IsReady now p h e sized narrow v =
      let page = new_cached_page p (served p) now.now in
      let whole = take_whole mariadb_page_size (served p) sized in
      let (c', added, v', _) =
        add_page-IsCoherent (flush curl net now h.current_timeline) (page_key p) page h.cache
          (some (h.current_lsn, e)) v.coherent refl in
      (
        record h { cache = c' },
        rw (whole, added, ◌>>=◌),
        record {
          coherent = v';
          faithful =
              add_page-IsFaithful served (flush curl net now h.current_timeline) p now.now h.cache
                c' (some (h.current_lsn, e)) (some (h.current_lsn, e)) narrow v.faithful added;
          pool = v.pool;
          there = v.there;
        },
      )

  module _ (serving : IsServing curl served) where
    return_to_pool-IsReady :
        (n : ℕ) (h : Handler) (e : Engine curl net)
        → IsReady h e
        → IsReady h (return_to_pool curl net n e)
    return_to_pool-IsReady n h e v = record {
      coherent = v.coherent;
      faithful = v.faithful;
      pool = record (v.pool) { pageserver = destruct (wrap (some n) true) v.pool.pageserver };
      there = rw v.there;
    }

    -- From the answer of the pageserver on.
    after_read-IsServed :
        (now : Moment) (p : PageId) (n : ℕ) (h : Handler) (e : Engine curl net) (result : ℤ)
        (buffer : List ℕ) (w : curl.World)
        → IsNarrow p
        → IsReady h e
        → (is_nat result 0 ≡ true → buffer ≡ served p)
        → IsServed p (after_read curl net now p n h e (result, buffer, w))
    unfolding after_read
    after_read-IsServed now p n h e result buffer w narrow v given =
        let e' = record e { curl_world = w; perf_stats = count_latency now.latency e.perf_stats } in
        let paid : IsReady h e' = record {
          coherent = v.coherent;
          faithful = v.faithful;
          pool = v.pool;
          there = v.there;
        } in
        elim (Bool-cases (is_nat result 0)) [
          | inl got ↦
              let (h', cached, v') = cache_page-IsReady now p h e' (serving.sized p) narrow paid in
              record {
                result = ok;
                bytes = served p;
                handler = h';
                engine = return_to_pool curl net n e';
                returned = rw (got, given got, cached, ◌>>=◌, after_read);
                ready = return_to_pool-IsReady n h' e' v';
                right = λ _. refl;
              }
          | inr failed ↦ record {
            result = client_error;
            bytes = buffer;
            handler = h;
            engine = return_to_pool curl net n e';
            returned = rw (failed, after_read);
            ready = return_to_pool-IsReady n h e' paid;
            right = λ r. cc;
          }
        ]

    after_get-IsServed :
        (now : Moment) (p : PageId) (buffer : List ℕ) (h : Handler) (e : Engine curl net)
        (got : Ptr × ConnectionPool)
        → IsNarrow p
        → IsReady h e
        → IsServed p (after_get curl net now p buffer h e got)
    unfolding after_get
    after_get-IsServed now p buffer h e (none, pool) narrow v = record {
      result = ha_err_generic;
      bytes = buffer;
      handler = h;
      engine = record e { pool = some pool };
      returned = refl;
      ready = record { coherent = v.coherent; faithful = v.faithful; pool = pool; there = refl };
      right = λ r. cc;
    }
    after_get-IsServed now p buffer h e (some n, pool) narrow v =
        let answer = read_page curl p buffer mariadb_page_size (e.pages n) e.curl_world in
        after_read-IsServed now p n h (record e { pool = some pool }) answer.0 answer.1 answer.2
          narrow
          (record { coherent = v.coherent; faithful = v.faithful; pool = pool; there = refl })
          (serving.stable p buffer (e.pages n) e.curl_world)

    pub read_page_from_cache_or_pageserver-IsServed :
        (now : Moment) (p : PageId) (buffer : List ℕ) (h : Handler) (e : Engine curl net)
        → IsNarrow p
        → IsReady h e
        → IsServed p (read_page_from_cache_or_pageserver curl net now p buffer h e)
    unfolding read_page_from_cache_or_pageserver fetch
    read_page_from_cache_or_pageserver-IsServed now p buffer h e narrow v =
        elim (Option-cases (find (page_key p) h.cache.page_cache)) [
          | inl miss ↦
              let called = record e { perf_stats = count_call e.perf_stats } in
              rw
                (
                  look_up-miss (page_key p) now.now h.cache miss,
                  read_page_from_cache_or_pageserver,
                  v.there,
                  ◌>>=◌,
                )
                (after_get-IsServed now p buffer h called
                  (get_pageserver_connection now.constructs now.other_pages v.pool) narrow
                  (record {
                    coherent = v.coherent;
                    faithful = v.faithful;
                    pool = v.pool;
                    there = v.there;
                  }))
          | inr (page, hit) ↦
              let (c', found, coherent, faithful) =
                look_up-served served p now.now h.cache page narrow v.coherent v.faithful hit in
              record {
                result = ok;
                bytes = served p;
                handler = record h { cache = c' };
                engine = e;
                returned = rw (found, read_page_from_cache_or_pageserver);
                ready = record {
                  coherent = coherent;
                  faithful = faithful;
                  pool = v.pool;
                  there = v.there;
                };
                right = λ _. refl;
              }
        ]
