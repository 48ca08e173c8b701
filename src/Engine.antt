-- ===== src/Engine.antt =====
-- src/ha_serverless.cc and src/ha_serverless.h: the global state of the plugin, the state of one
-- handler, and the result codes.
use mariadb_serverless_engin.Base.{ℕ, ◌+◌, Bool, Option, u64}
use mariadb_serverless_engin.Types.{TimelineId}
use mariadb_serverless_engin.Sockets.{Sockets}
use mariadb_serverless_engin.SafekeeperClient.{Client}
use mariadb_serverless_engin.PageserverClient.{Curl, PageserverClient}
use mariadb_serverless_engin.PageCache.{Cache}
use mariadb_serverless_engin.ConnectionPool.{ConnectionPool}

-- 0, the error codes of MariaDB's headers by their names, and the -1 of a client passed on.
pub data HaResult : Type 0 where
  ok ha_err_internal_error ha_err_generic : HaResult
  ha_err_end_of_file ha_err_wrong_command ha_err_key_not_found : HaResult
  client_error : HaResult

-- `total_requests` and `cache_hits` are never changed.
pub record PerformanceStats : Type 0 where
  pub total_requests : ℕ
  pub cache_hits : ℕ
  pub network_calls : ℕ
  pub total_latency_ms : ℕ

unfoldable pub count_call : PerformanceStats → PerformanceStats
count_call p = record p { network_calls = u64 (p.network_calls + 1) }

unfoldable pub count_latency : ℕ → PerformanceStats → PerformanceStats
count_latency latency p = record p { total_latency_ms = u64 (p.total_latency_ms + latency) }

-- `pool` and the two legacy clients are the plugin's global pointers. `pages` and `keepers` are the
-- clients of the pool by their numbers.
pub record Engine (curl : Curl) (net : Sockets) : Type 0 where
  pub pool : Option ConnectionPool
  pub pages : ℕ → PageserverClient
  pub keepers : ℕ → Client
  pub legacy_pages : Option PageserverClient
  pub legacy_keeper : Option Client
  pub perf_stats : PerformanceStats
  pub curl_world : curl.World
  pub net_world : net.World

-- The handler's two client pointers are copies of the legacy pointers, and share their clients:
-- the Booleans say that they are not null.
pub record Handler : Type 0 where
  pub has_pages : Bool
  pub has_keeper : Bool
  pub current_timeline : TimelineId
  pub cache : Cache
  pub current_lsn : ℕ
  pub active_index : ℕ
