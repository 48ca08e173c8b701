-- ===== src/Handler/Transparent.antt =====
-- src/ha_serverless.cc: any sequence of reads of one handler, against a store without a cache.
use mariadb_serverless_engin.Base.{
  ℕ, ◌≡◌, refl, true, List, [], ◌∷◌, Option, some, All, ◌>>=◌, arith,
}
use mariadb_serverless_engin.Types.{PageId}
use mariadb_serverless_engin.ConnectionPool.{ConnectionPool}
use mariadb_serverless_engin.Sockets.{Sockets}
use mariadb_serverless_engin.PageserverClient.{Curl}
use mariadb_serverless_engin.PageCache.Faithful.{IsNarrow}
use mariadb_serverless_engin.Engine.{Engine, Handler, HaResult}
use mariadb_serverless_engin.Handler.{Moment, is_ok, new_handler}
use mariadb_serverless_engin.Handler.Reading.{read_page_from_cache_or_pageserver}
use mariadb_serverless_engin.Handler.Stores.{IsStore, padded, store-IsServing}
use mariadb_serverless_engin.Handler.Served.{
  IsServing, IsReady, read_page_from_cache_or_pageserver-IsServed,
}

-- A read that a caller asks for: the circumstances, the page, and the buffer before.
pub record Request : Type 0 where
  pub moment : Moment
  pub page : PageId
  pub buffer : List ℕ

abbrev pub IsNarrowRequest : Request → Type 0
IsNarrowRequest r = IsNarrow r.page

module _ (curl : Curl) (net : Sockets) where
  -- The reads in turn, with their results and buffers.
  unfoldable pub read_all :
      List Request
      → Handler
      → Engine curl net
      → Option (List (HaResult × List ℕ) × Handler × Engine curl net)
  read_all [] h e = some ([], h, e)
  read_all (r ∷ rs) h e =
      read_page_from_cache_or_pageserver curl net r.moment r.page r.buffer h e
      >>= λ (result, bytes, h', e').
          read_all rs h' e' >>= λ (outcomes, h'', e''). some ((result, bytes) ∷ outcomes, h'', e'')

-- What a store that has the page `served p` for each page `p` may answer: it fails, or it gives that.
abbrev pub Answers : (PageId → List ℕ) → List Request → List (HaResult × List ℕ) → Type 0
Answers served [] [] = Unit
Answers served (r ∷ rs) ((result, bytes) ∷ outcomes) =
    (is_ok result ≡ true → bytes ≡ served r.page) × Answers served rs outcomes
Answers served _ _ = ⊥

module _ (curl : Curl) (net : Sockets) (served : PageId → List ℕ) where
  read_all-Answers :
      (serving : IsServing curl served) (rs : List Request) (h : Handler) (e : Engine curl net)
      → All IsNarrowRequest rs
      → IsReady curl net served h e
      → (outcomes : List (HaResult × List ℕ)) × (h' : Handler) × (e' : Engine curl net) × (read_all
            curl net rs h e
          ≡ some (outcomes, h', e'))
        × Answers served rs outcomes
  unfolding read_all
  read_all-Answers serving [] h e narrow v = ([], h, e, refl, tt)
  read_all-Answers serving (r ∷ rs) h e narrow v =
      let read =
        read_page_from_cache_or_pageserver-IsServed curl net served serving r.moment r.page r.buffer
          h e narrow.0 v in
      let (outcomes, h', e', rest, answers) =
        read_all-Answers serving rs read.handler read.engine narrow.1 read.ready in
      (
        (read.result, read.bytes) ∷ outcomes,
        h',
        e',
        rw (read.returned, ◌>>=◌, rest),
        (read.right, answers),
      )

  new-IsReady :
      (index : ℕ) (e : Engine curl net) (pool : ConnectionPool)
      → e.pool ≡ some pool
      → IsReady curl net served (new_handler curl net index e) e
  unfolding new_handler
  new-IsReady index e pool there = record {
    coherent = record { listed = λ k. refl; unique = tt; clean = tt; bounded = omega arith };
    faithful = tt;
    pool = pool;
    there = there;
  }

module _ (curl : Curl) (net : Sockets) (stored : PageId → List ℕ) where
  -- Let there be memory for what the pageserver delivers, let it deliver for each page what is stored
  -- of it, 16384 bytes at most, whenever it answers with code 200, and let there be a pool. Then any
  -- reads by a new handler, of pages with 32-bit timelines and numbers, have a defined result, whatever
  -- comes from the cache and is evicted from it, and each of them fails or gives the stored page,
  -- filled up with zeros.
  pub read_all_refines :
      (store : IsStore curl stored) (rs : List Request) (index : ℕ) (e : Engine curl net)
      (pool : ConnectionPool)
      → All IsNarrowRequest rs
      → e.pool ≡ some pool
      → (outcomes : List (HaResult × List ℕ)) × (h' : Handler) × (e' : Engine curl net) × (read_all
            curl net rs
            (new_handler curl net index e)
            e
          ≡ some (outcomes, h', e'))
        × Answers (padded stored) rs outcomes
  read_all_refines store rs index e pool narrow there =
      read_all-Answers curl net (padded stored) (store-IsServing curl stored store) rs
        (new_handler curl net index e) e narrow
        (new-IsReady curl net (padded stored) index e pool there)
