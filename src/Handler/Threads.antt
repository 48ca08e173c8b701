-- ===== src/Handler/Threads.antt =====
-- src/ha_serverless.cc with src/connection_pool.cc: many threads, each with a handler and its cache,
-- that read pages through one pool, and the health thread. A read passes the sections of
-- `read_page_from_cache_or_pageserver`: it looks its page up, asks the pool, gets a connection or
-- none, and with the connection fails, or fetches and adds the page, and then returns the connection.
pub mod Holding
pub mod Sound
use mariadb_serverless_engin.Base.{ℕ, suc, ◌≡◌, Bool, List, [], ◌∷◌, none, some}
use mariadb_serverless_engin.Types.{PageId}
use mariadb_serverless_engin.Timeline.{page_key}
use mariadb_serverless_engin.Pool.{Ptr, get_begin, get_finish, return_connection}
use mariadb_serverless_engin.Pool.Growth.{scale_up}
use mariadb_serverless_engin.Pool.Lending as Lending
use mariadb_serverless_engin.Pool.Lending.{Warmth, taken, given_back, newcomer}
use mariadb_serverless_engin.PageCache.{Cache, look_up, add_page, new_cached_page}
use mariadb_serverless_engin.PageCache.Faithful.{IsNarrow}
use mariadb_serverless_engin.Handler.Threads.Holding.{Phase, idle, waits, fetches, leaves, set_at}

-- The pageserver side of the pool, the thread's caches and phases, and what the reads that have
-- returned gave.
pub record Threads : Type 0 where
  pub pool : Lending.System
  pub cache : ℕ → Cache
  pub phase : ℕ → Phase
  pub given : List (PageId × List ℕ)

-- A read that gets no connection ends.
abbrev pub handed : PageId → Ptr → Phase
handed p none = idle
handed p (some n) = fetches p n

abbrev pub pool_asked : Lending.System → Lending.System
pool_asked s = record s { side = get_begin s.side; waiting = suc s.waiting }

abbrev pub pool_returned : ℕ → Lending.System → Lending.System
pool_returned n s = record s {
  side = return_connection (some n) s.side;
  lent = given_back n s.lent;
}

module _ {ℓ} (served : PageId → List ℕ) {S : Type ℓ} (flush : PageId → List ℕ → S → S) (s0 : S)
    (constructs : ℕ → Bool) where
  -- What one thread does between two points at which others can act. `waiting` counts the threads
  -- that wait.
  pub data Step (s : Threads) : Threads → Type ℓ where
    hits :
        (i now : ℕ) (p : PageId) {bytes : List ℕ} {c' : Cache}
        → s.phase i ≡ idle
        → IsNarrow p
        → look_up (page_key p) now (s.cache i) ≡ some (bytes, c')
        → Step s (record s { cache = set_at i c' s.cache; given = (p, bytes) ∷ s.given })
    asks :
        (i now : ℕ) (p : PageId)
        → s.phase i ≡ idle
        → IsNarrow p
        → look_up (page_key p) now (s.cache i) ≡ none
        → Step s (record s { pool = pool_asked s.pool; phase = set_at i (waits p) s.phase })
    gets :
        (i k : ℕ) (p : PageId)
        → s.phase i ≡ waits p
        → s.pool.waiting ≡ suc k
        → Step s (record s {
          pool = record (s.pool) {
            side = (get_finish constructs s.pool.side).1;
            waiting = k;
            lent = taken (get_finish constructs s.pool.side).0 s.pool.lent;
          };
          phase = set_at i (handed p (get_finish constructs s.pool.side).0) s.phase;
        })
    fails :
        (i n : ℕ) (p : PageId)
        → s.phase i ≡ fetches p n
        → Step s (record s { phase = set_at i (leaves n) s.phase })
    adds :
        (i n now : ℕ) (p : PageId) {c' : Cache}
        → s.phase i ≡ fetches p n
        → add_page flush (page_key p) (new_cached_page p (served p) now) (s.cache i) s0
          ≡ some (c', s0)
        → Step s (record s {
          cache = set_at i c' s.cache;
          phase = set_at i (leaves n) s.phase;
          given = (p, served p) ∷ s.given;
        })
    returns :
        (i n : ℕ)
        → s.phase i ≡ leaves n
        → Step s (record s { pool = pool_returned n s.pool; phase = set_at i idle s.phase })
    scales : Step s (record s {
      pool = record (s.pool) {
        side = scale_up constructs s.pool.side;
        scaled = taken (newcomer constructs s.pool.side) s.pool.scaled;
      };
    })

  pub data Reach (s : Threads) : Threads → Type ℓ where
    here : Reach s s
    next : {t u : Threads} → Reach s t → Step t u → Reach s u

-- All threads between reads, with empty caches, and a new side, warmed or not.
abbrev pub start : Warmth → (ℕ → Bool) → ℕ → ℕ → Threads
start w constructs min max = record {
  pool = Lending.start w constructs min max;
  cache = λ i. record { page_cache = []; lru_list = [] };
  phase = λ i. idle;
  given = [];
}
