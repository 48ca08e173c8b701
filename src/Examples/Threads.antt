-- ===== src/Examples/Threads.antt =====
-- An instance for threads that read through one pool.
use mariadb_serverless_engin.Base.{ℕ, ◌≡◌, refl, true, ◌||◌, ◌==◌, [], ◌∷◌, some, none, All, arith}
use mariadb_serverless_engin.Text.{codes}
use mariadb_serverless_engin.Timeline.{page_key}
use mariadb_serverless_engin.Pool.{
  get_begin, get_finish, get_timeout, create_connection, construct, adopt, is_connection_healthy,
  init,
}
use mariadb_serverless_engin.Pool.Lending as Lending
use mariadb_serverless_engin.Pool.Lending.{cold, warmed, taken}
use mariadb_serverless_engin.PageCache.{
  Cache, look_up, find, add_page, assign, erase, new_cached_page,
}
use mariadb_serverless_engin.PageCache.Invariant.{IsCoherent}
use mariadb_serverless_engin.PageCache.Readers.{IsGiven}
use mariadb_serverless_engin.Handler.Threads.{
  Threads, start, pool_asked, handed, Reach, here, next, asks, gets, adds,
}
use mariadb_serverless_engin.Handler.Threads.Holding.{connection, waits, fetches, leaves, set_at}
use mariadb_serverless_engin.Handler.Threads.Sound.{apart, Reach-safe}
use mariadb_serverless_engin.Examples.Pools.{always}
use mariadb_serverless_engin.Examples.Pages.{page, no_flush}
use mariadb_serverless_engin.Examples.Reads.{stored}

-- The threads 3 and 4 each miss on the page and get a connection; thread 3 adds the page.
abbrev first : Threads
first = start cold always 1 2

abbrev asking : Threads → ℕ → Threads
asking s i = record s { pool = pool_asked s.pool; phase = set_at i (waits page) s.phase }

abbrev getting : Threads → ℕ → Threads
getting s i = record s {
  pool = record (s.pool) {
    side = (get_finish always s.pool.side).1;
    waiting = 0;
    lent = taken (get_finish always s.pool.side).0 s.pool.lent;
  };
  phase = set_at i (handed page (get_finish always s.pool.side).0) s.phase;
}

abbrev both : Threads
both = getting (asking (getting (asking first 3) 3) 4) 4

abbrev cached : Cache
cached = record {
  page_cache = (page_key page, new_cached_page page (codes "abc") 5) ∷ [];
  lru_list = page_key page ∷ [];
}

abbrev last : Threads
last = record both {
  cache = set_at 3 cached both.cache;
  phase = set_at 3 (leaves 0) both.phase;
  given = (page, codes "abc") ∷ [];
}

has_connection : both.phase 3 ≡ fetches page 0
unfolding get_finish get_begin get_timeout create_connection construct adopt is_connection_healthy
    init warmed Lending.start
has_connection = refl

misses : look_up (page_key page) 4 (first.cache 3) ≡ none
unfolding look_up find
misses = refl

adds_page :
    add_page no_flush (page_key page) (new_cached_page page (stored page) 5) (both.cache 3) 0
    ≡ some (cached, 0)
unfolding add_page assign erase
adds_page = refl

run : Reach stored no_flush 0 always first last
unfolding Lending.start
run =
    next
      (next
        (next
          (next
            (next here
              (asks 3 4 page refl (record { timeline = omega arith; number = omega arith }) misses))
            (gets 3 0 page refl refl))
          (asks 4 4 page refl (record { timeline = omega arith; number = omega arith }) misses))
        (gets 4 0 page refl refl))
      (adds 3 0 5 page has_connection adds_page)

Reach-safe_example :
    (((3 == 4) || apart (connection (last.phase 3)) (connection (last.phase 4))) ≡ true)
    × All (IsGiven stored no_flush 0) last.given
    × IsCoherent (last.cache 3)
Reach-safe_example = Reach-safe stored no_flush 0 always cold 1 2 3 4 run
