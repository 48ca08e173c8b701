-- ===== src/Examples/Orders.antt =====
-- Instances that count the calls of the pageserver and that interleave handlers.
use mariadb_serverless_engin.Base.{map, ◌>>=◌, none, ℕ, ◌≡◌, refl, arith, List, ◌∷◌, [], some, true}
use mariadb_serverless_engin.Text.{codes}
use mariadb_serverless_engin.Handler.Rows.{writes, updates, row_ops}
use mariadb_serverless_engin.Handler.Reading.{read_page_from_cache_or_pageserver}
use mariadb_serverless_engin.Handler.Frame.{rows_read_commute}
use mariadb_serverless_engin.Timeline.{page_key}
use mariadb_serverless_engin.Engine.{Engine, Handler}
use mariadb_serverless_engin.Handler.Transparent.{Request}
use mariadb_serverless_engin.PageCache.Fifo.{misses}
use mariadb_serverless_engin.Plugin.Calls.{key_of}
use mariadb_serverless_engin.Examples.Keepers.{calm, linked}
use mariadb_serverless_engin.Examples.Pages.{
  answering, page, piece, client, filled, filled-IsCoherent,
}
use mariadb_serverless_engin.Examples.Engines.{engine, moment, keeper}
use mariadb_serverless_engin.Types.{PageId}
use mariadb_serverless_engin.PageserverClient.{Curl, PageserverClient, build_page_url}

-- A server that answers each request with code 200 and its URL.
abbrev echo : Curl
echo = record {
  World = Unit {0};
  perform = λ url w. (true, piece url true ∷ [], 200, w);
  cleanup = λ w. w;
}

abbrev base : List ℕ
base = codes "http://localhost:9997"

-- So each page has other bytes.
abbrev own_url : PageId → List ℕ
own_url p = build_page_url p (record { has_handle = true; base_url = base; timeout_seconds = 30 })

abbrev next_page : PageId
next_page = record { timeline_id = 7; page_number = 4 }

-- Two pages, of which the first is read again.
abbrev browsed : List Request
browsed =
    record { moment = moment; page = page; buffer = [] }
    ∷ record { moment = moment; page = next_page; buffer = [] }
    ∷ record { moment = moment; page = page; buffer = [] }
    ∷ []

two_misses : misses [] (map key_of browsed) ≡ 2
unfolding page_key
two_misses = refl

abbrev fresh : Engine echo calm
fresh = record {
  pool = none;
  pages = λ n. client;
  keepers = λ n. linked;
  legacy_pages = none;
  legacy_keeper = none;
  perf_stats = record {
    total_requests = 0;
    cache_hits = 0;
    network_calls = 0;
    total_latency_ms = 0;
  };
  curl_world = tt;
  net_world = tt;
}

-- The handler n has the timeline n.
abbrev handlers : ℕ → Handler
handlers n = record {
  has_pages = true;
  has_keeper = true;
  current_timeline = record { id = n };
  cache = record { page_cache = []; lru_list = [] };
  current_lsn = 1;
  active_index = 0;
}

-- A handler whose cache has one page, which it reads.
abbrev with_page : Handler
with_page = record (handlers 6) { cache = filled 1 }

rows_read_commute_example :
    (row_ops answering calm 100 (writes 1 ∷ updates 3 4 ∷ []) with_page engine >>= λ (h', e').
    read_page_from_cache_or_pageserver answering calm moment page [] h' e')
    ≡ (read_page_from_cache_or_pageserver answering calm moment page [] with_page engine
        >>= λ (result, bytes, h', e').
            row_ops answering calm 100 (writes 1 ∷ updates 3 4 ∷ []) h' e' >>= λ (h'', e'').
            some (result, bytes, h'', e''))
rows_read_commute_example =
    rows_read_commute answering calm moment page [] 100 (writes 1 ∷ updates 3 4 ∷ []) with_page
      engine keeper (filled-IsCoherent 1 (omega arith)) refl refl
