-- ===== src/Examples/Reads.antt =====
-- Instances for reads through the cache, and for what a loaded plugin does to rows.
use mariadb_serverless_engin.Base.{ℕ, ◌≡◌, refl, List, [], ◌∷◌, none, some, All, arith, length, suc}
use mariadb_serverless_engin.Types.{PageId, TimelineId}
use mariadb_serverless_engin.Text.{codes}
use mariadb_serverless_engin.Timeline.{page_key, hash_string}
use mariadb_serverless_engin.PageCache.{
  Cache, look_up, add_page, find, new_cached_page, assign, erase,
}
use mariadb_serverless_engin.PageCache.Invariant.{IsCoherent}
use mariadb_serverless_engin.PageCache.Readers as Readers
use mariadb_serverless_engin.PageCache.Readers.{IsGiven, Reach-given}
use mariadb_serverless_engin.PageCache.Objects.{add_objects, destroy_pages, second_add_leaks}
use mariadb_serverless_engin.ConnectionPool.{new_pool}
use mariadb_serverless_engin.Engine.{Engine, Handler, HaResult}
use mariadb_serverless_engin.Handler.{new_handler}
use mariadb_serverless_engin.Handler.Rows.{RowOp, writes, updates, requests, session}
use mariadb_serverless_engin.Handler.Stores.{IsStore, padded}
use mariadb_serverless_engin.Handler.Transparent.{
  Request, IsNarrowRequest, Answers, read_all, read_all_refines,
}
use mariadb_serverless_engin.Plugin.{serverless_init_func}
use mariadb_serverless_engin.Handler.Writes.{PageWrite, write_pages, IsFailure}
use mariadb_serverless_engin.Plugin.Writes.{load_then_writes-fail}
use mariadb_serverless_engin.Plugin.Loss.{IsLost, load_then_loss}
use mariadb_serverless_engin.SafekeeperClient.{Client, Memory, WalAppendRequest}
use mariadb_serverless_engin.SafekeeperClient.Loop.{waiting, worker_thread_main, Completes}
use mariadb_serverless_engin.Examples.Keepers.{calm, calm-IsPosix, rows}
use mariadb_serverless_engin.Examples.Pages.{answering, page, no_flush}
use mariadb_serverless_engin.Examples.Engines.{engine, moment, load, unloaded}

abbrev pub stored : PageId → List ℕ
stored p = codes "abc"

answering-IsStore : IsStore answering stored
answering-IsStore = record {
  whole = λ url w. (
    record { counted = refl; allocated = refl },
    (record { counted = refl; allocated = refl }, tt),
  );
  delivers = λ p c w succeeds found. refl;
  sized = λ p. omega arith;
}

abbrev reads : List Request
reads =
    record { moment = moment; page = page; buffer = [] }
    ∷ record { moment = moment; page = page; buffer = [] }
    ∷ []

reads-IsNarrow : All IsNarrowRequest reads
reads-IsNarrow = (
  record { timeline = omega arith; number = omega arith },
  (record { timeline = omega arith; number = omega arith }, tt),
)

read_all_refines_example :
    (outcomes : List (HaResult × List ℕ)) × (h' : Handler) × (e' : Engine answering calm)
    × (read_all answering calm reads (new_handler answering calm 0 engine) engine
        ≡ some (outcomes, h', e'))
    × Answers (padded stored) reads outcomes
read_all_refines_example =
    read_all_refines answering calm stored answering-IsStore reads 0 engine (new_pool 1 2 1 2)
      reads-IsNarrow refl

abbrev nothing : Readers.Readers
nothing = record { cache = record { page_cache = []; lru_list = [] }; fetching = []; given = [] }

abbrev one_page : Cache
one_page = record {
  page_cache = (page_key page, new_cached_page page (codes "abc") 5) ∷ [];
  lru_list = page_key page ∷ [];
}

-- A thread misses and begins to fetch, and ends it.
abbrev fetching : Readers.Readers
fetching = record nothing { fetching = page ∷ [] }

abbrev fetched : Readers.Readers
fetched = record nothing { cache = one_page; given = (page, codes "abc") ∷ [] }

empty_misses : look_up (page_key page) 4 nothing.cache ≡ none
unfolding look_up find
empty_misses = refl

adds_page :
    add_page no_flush (page_key page) (new_cached_page page (stored page) 5) nothing.cache 0
    ≡ some (one_page, 0)
unfolding add_page assign erase
adds_page = refl

fetches : Readers.Reach stored no_flush 0 nothing fetched
fetches =
    Readers.Reach.next
      (Readers.Reach.next Readers.Reach.here (
        Readers.Step.misses page 4 (record { timeline = omega arith; number = omega arith })
          empty_misses))
      (Readers.Step.adds page [] [] 5 refl adds_page)

Reach-given_example : All (IsGiven stored no_flush 0) fetched.given × IsCoherent fetched.cache
Reach-given_example = Reach-given stored no_flush 0 fetches

second_add_leaks_example :
    (c' : Cache) × (c'' : Cache) × (add_page no_flush
        (page_key page)
        (new_cached_page page (codes "abc") 5)
        nothing.cache
        0
      ≡ some (c', 0))
    × (add_page no_flush (page_key page) (new_cached_page page (codes "abc") 6) c' 0
        ≡ some (c'', 0))
    × (find (page_key page) c'.page_cache ≡ some (new_cached_page page (codes "abc") 5))
    × (find (page_key page) c''.page_cache ≡ some (new_cached_page page (codes "abc") 6))
    × (add_objects no_flush (page_key page) (new_cached_page page (codes "abc") 5) nothing.cache 0
        ≡ some ([], c', 0))
    × (add_objects no_flush (page_key page) (new_cached_page page (codes "abc") 6) c' 0
        ≡ some ([], c'', 0))
    × ((destroy_pages c''.page_cache).0
        ≡ new_cached_page page (codes "abc") 6 ∷ (destroy_pages nothing.cache.page_cache).0)
    × (c''.lru_list ≡ page_key page ∷ page_key page ∷ [])
second_add_leaks_example =
    second_add_leaks no_flush (page_key page) (new_cached_page page (codes "abc") 5)
      (new_cached_page page (codes "abc") 6) nothing.cache 0 refl (omega arith)

abbrev memory : WalAppendRequest → Memory
memory request = rows

abbrev changes : List RowOp
changes = writes 1 ∷ updates 1 2 ∷ []

load_then_loss_example :
    let t : TimelineId = record { id = hash_string (codes "./db/t") } in
    (e' : Engine answering calm) × (h' : Handler) × (e'' : Engine answering calm)
    × (keeper : Client) × (done : List WalAppendRequest) × (c' : Client) × (w' : calm.World)
    × (serverless_init_func answering calm load unloaded ≡ some (0, e'))
    × (session answering calm 100 (codes "./db/t") changes (new_handler answering calm 0 e') e'
        ≡ some (h', e''))
    × (e''.legacy_keeper ≡ some keeper)
    × (worker_thread_main calm memory (suc (length keeper.append_queue)) keeper tt
        ≡ some (waiting, done, c', w'))
    × Completes (requests t 1 100 changes) done
    × All IsLost done
load_then_loss_example =
    load_then_loss answering calm calm-IsPosix memory load unloaded 0 100 (codes "./db/t") changes
      tt refl

abbrev page_writes : List PageWrite
page_writes = record { moment = moment; page = page; bytes = codes "abc" } ∷ []

load_then_writes-fail_example :
    (loaded : ℕ) × (e' : Engine answering calm) × (results : List HaResult) × (lsn' : ℕ)
    × (e'' : Engine answering calm) × (serverless_init_func answering calm load unloaded
        ≡ some (loaded, e'))
    × (write_pages answering calm (record { id = 7 }) page_writes (1, e')
        ≡ some (results, lsn', e''))
    × (length results ≡ 1)
    × All IsFailure results
load_then_writes-fail_example =
    load_then_writes-fail answering calm calm-IsPosix load unloaded (record { id = 7 }) page_writes
      1
