-- ===== src/Examples/Engines.antt =====
-- Tests and instances for the handler and the plugin, over servers that answer every request.
use mariadb_serverless_engin.Base.{
  ℕ, ◌+◌, ◌-◌, ◌^◌, ◌≡◌, refl, true, false, List, [], ◌∷◌, ◌++◌, none, some, arith, take, pos,
  minus_one,
}
use mariadb_serverless_engin.Types.{PageId, TimelineId}
use mariadb_serverless_engin.Text.{codes}
use mariadb_serverless_engin.Timeline.{hash_string, page_key}
use mariadb_serverless_engin.ConnectionPool.{ConnectionPool, new_pool, get_pageserver_connection}
use mariadb_serverless_engin.SafekeeperClient.{Client}
use mariadb_serverless_engin.Pool.{
  get_connection, get_begin, get_finish, get_timeout, create_connection, adopt, init, construct,
  is_connection_healthy,
}
use mariadb_serverless_engin.PageserverClient.{read_page, zeros}
use mariadb_serverless_engin.PageserverClient.Pages.{read_page-contents}
use mariadb_serverless_engin.PageCache.{mariadb_page_size, find}
use mariadb_serverless_engin.Engine.{Engine, Handler, HaResult, ok}
use mariadb_serverless_engin.Handler.{Moment, create, is_ok}
use mariadb_serverless_engin.Handler.Rows.{writes, requests, queued, session, session_restarts}
use mariadb_serverless_engin.Handler.Reading.{read_page_from_cache_or_pageserver}
use mariadb_serverless_engin.Handler.Hits.{read_then_hit}
use mariadb_serverless_engin.Plugin.{Load, serverless_init_func, serverless_done_func}
use mariadb_serverless_engin.Plugin.Loaded.{load_then_create-fails, load_then_unload}
use mariadb_serverless_engin.Examples.Keepers.{calm, calm-IsPosix}
use mariadb_serverless_engin.Examples.Pages.{
  answering, filled, filled-IsCoherent, page, client, piece,
}

abbrev pub keeper : Client
keeper = record {
  server_host = codes "localhost";
  server_port = 5433;
  socket_fd = minus_one;
  connected = false;
  append_queue = [];
  shutdown_requested = false;
}

-- An engine with a pool of two connections of each kind at most, not warmed up.
abbrev pub engine : Engine answering calm
engine = record {
  pool = some (new_pool 1 2 1 2);
  pages = λ n. client;
  keepers = λ n. keeper;
  legacy_pages = some client;
  legacy_keeper = some keeper;
  perf_stats = record {
    total_requests = 0;
    cache_hits = 0;
    network_calls = 0;
    total_latency_ms = 0;
  };
  curl_world = tt;
  net_world = tt;
}

abbrev handler : Handler
handler = record {
  has_pages = true;
  has_keeper = true;
  current_timeline = record { id = 5 };
  cache = filled 2;
  current_lsn = 7;
  active_index = 0;
}

abbrev pub moment : Moment
moment = record {
  constructs = record { pages = λ n. true; keepers = λ n. true };
  other_pages = λ s. s;
  other_keepers = λ s. s;
  now = 40;
  latency = 2;
}

session_restarts_example :
    let t : TimelineId = record { id = hash_string (codes "./db/t") } in
    (h' : Handler) × (g' : Handler) × (e' : Engine answering calm) × (session answering calm 100
        (codes "./db/t")
        (writes 1 ∷ [])
        handler
        engine
      ≡ some (h', e'))
    × (session answering calm 100 (codes "./db/t") (writes 2 ∷ []) handler e'
        ≡ some (
          g',
          queued answering calm keeper
              (requests t 1 100 (writes 1 ∷ []) ++ requests t 1 100 (writes 2 ∷ []))
              engine,
        ))
session_restarts_example =
    session_restarts answering calm 100 (codes "./db/t") (writes 1 ∷ []) (writes 2 ∷ []) handler
      handler engine keeper refl refl refl

abbrev pub load : Load
load = record {
  constructs = record { pages = λ n. true; keepers = λ n. true };
  starts = true;
  has_handle = true;
}

abbrev pub unloaded : Engine answering calm
unloaded = record engine { pool = none; legacy_pages = none; legacy_keeper = none }

load_then_create-fails_example :
    (loaded : ℕ) × (e' : Engine answering calm) × (result : HaResult) × (e'' : Engine answering
      calm)
    × (serverless_init_func answering calm load unloaded ≡ some (loaded, e'))
    × (create answering calm moment (codes "./db/t") e' ≡ some (result, e''))
    × (is_ok result ≡ false)
load_then_create-fails_example =
    load_then_create-fails answering calm calm-IsPosix load moment (codes "./db/t") unloaded

load_then_unload_example :
    (e' : Engine answering calm) × (serverless_init_func answering calm load unloaded
      ≡ some (0, e'))
    × (serverless_done_func answering calm e' ≡ none)
load_then_unload_example = load_then_unload answering calm load unloaded refl refl

abbrev pool_lending : ConnectionPool
pool_lending = (get_pageserver_connection moment.constructs moment.other_pages (new_pool 1 2 1 2)).1

lent :
    get_pageserver_connection moment.constructs moment.other_pages (new_pool 1 2 1 2)
    ≡ (some 0, pool_lending)
unfolding get_pageserver_connection get_connection get_begin get_finish get_timeout
    create_connection adopt new_pool init construct is_connection_healthy
lent = refl

abbrev page_bytes : List ℕ
page_bytes = codes "abc" ++ zeros (mariadb_page_size - 3)

answered : read_page answering page [] mariadb_page_size client tt ≡ (pos 0, page_bytes, tt)
answered =
    read_page-contents answering page [] mariadb_page_size client tt tt true
      (piece (codes "ab") true) (piece (codes "c") true ∷ []) 200 refl refl
      (
        record { counted = refl; allocated = refl },
        (record { counted = refl; allocated = refl }, tt),
      )

-- A page of another timeline.
abbrev other_page : PageId
other_page = record { timeline_id = 2 ^ 32 + 7; page_number = 3 }

missing : find (page_key page) handler.cache.page_cache ≡ none
unfolding page_key find
missing = refl

keys : page_key other_page ≡ page_key page
unfolding page_key
keys = refl

read_then_hit_example :
    (h' : Handler) × (e' : Engine answering calm) × (h'' : Handler)
    × (read_page_from_cache_or_pageserver answering calm moment page [] handler engine
        ≡ some (ok, page_bytes, h', e'))
    × (read_page_from_cache_or_pageserver answering calm moment other_page [] h' e'
        ≡ some (ok, take mariadb_page_size page_bytes, h'', e'))
read_then_hit_example =
    read_then_hit answering calm moment moment page other_page [] page_bytes [] handler engine
      (new_pool 1 2 1 2) pool_lending 0 tt (filled-IsCoherent 2 (omega arith)) missing refl lent
      answered keys
