-- ===== src/Plugin/Reads.antt =====
-- src/ha_serverless.cc with src/connection_pool.cc and src/pageserver_client.cc: the pages that a
-- handler of a loaded plugin reads.
use mariadb_serverless_engin.Base.{ℕ, ◌≡◌, refl, true, List, [], ◌∷◌, some, All, map, ◌>>=◌, arith}
use mariadb_serverless_engin.ConnectionPool.{ConnectionPool}
use mariadb_serverless_engin.Pool.Supply.{IsSupplied}
use mariadb_serverless_engin.Sockets.{Sockets}
use mariadb_serverless_engin.PageserverClient.{Curl}
use mariadb_serverless_engin.Engine.{Engine, Handler, HaResult, ok}
use mariadb_serverless_engin.Handler.{new_handler}
use mariadb_serverless_engin.Handler.Stores.{padded}
use mariadb_serverless_engin.Handler.Answering.{IsAnswering}
use mariadb_serverless_engin.Handler.Supplied.{
  IsAlone, IsStocked, read_page_from_cache_or_pageserver-IsFulfilled,
}
use mariadb_serverless_engin.Handler.Transparent.{Request, IsNarrowRequest, read_all}
use mariadb_serverless_engin.Types.{PageId}

abbrev pub IsAloneRequest : Request → Type 0
IsAloneRequest r = IsAlone r.moment

-- Success with the stored page.
abbrev pub fulfilled : (PageId → List ℕ) → Request → HaResult × List ℕ
fulfilled stored r = (ok, padded stored r.page)

module _ (curl : Curl) (net : Sockets) (base : List ℕ) (stored : PageId → List ℕ) where
  read_all-fulfilled :
      (answering : IsAnswering curl base stored) (rs : List Request) (h : Handler)
      (e : Engine curl net)
      → All IsNarrowRequest rs
      → All IsAloneRequest rs
      → IsStocked curl net base stored h e
      → (h' : Handler) × (e' : Engine curl net) × (read_all curl net rs h e
          ≡ some (map (fulfilled stored) rs, h', e'))
  unfolding read_all
  read_all-fulfilled answering [] h e narrow alone v = (h, e, refl)
  read_all-fulfilled answering (r ∷ rs) h e narrow alone v =
      let read =
        read_page_from_cache_or_pageserver-IsFulfilled curl net base stored answering r.moment
          r.page r.buffer h e alone.0 narrow.0 v in
      let (h', e', rest) =
        read_all-fulfilled answering rs read.handler read.engine narrow.1 alone.1 read.stocked in
      (h', e', rw (read.returned, ◌>>=◌, rest))

  pub new-IsStocked :
      (index : ℕ) (e : Engine curl net) (pool : ConnectionPool)
      → e.pool ≡ some pool
      → IsSupplied pool.pageserver
      → ((n : ℕ) → (e.pages n).has_handle ≡ true)
      → ((n : ℕ) → (e.pages n).base_url ≡ base)
      → IsStocked curl net base stored (new_handler curl net index e) e
  unfolding new_handler
  new-IsStocked index e pool there supplied handles urls = record {
    coherent = record { listed = λ k. refl; unique = tt; clean = tt; bounded = omega arith };
    faithful = tt;
    pool = pool;
    there = there;
    supplied = supplied;
    handles = handles;
    urls = urls;
    fifo = record { distinct = tt; sized = refl };
  }
