-- ===== src/Examples/Unloads.antt =====
-- An instance for the unloading of the plugin, with a pool whose connections have one owner each.
use mariadb_serverless_engin.Base.{ℕ, ◌+◌, ◌≡◌, refl, false, true, [], ◌∷◌, none, some, pos}
use mariadb_serverless_engin.Text.{codes}
use mariadb_serverless_engin.Pool.{
  init, get_begin, get_finish, get_timeout, create_connection, construct, adopt,
  is_connection_healthy, return_connection, find_erase, ptr_eq,
}
use mariadb_serverless_engin.Pool.Growth.{scale_up}
use mariadb_serverless_engin.Pool.Traces.{System, next, scales, Reach-IsOwned}
use mariadb_serverless_engin.Pool.Ownership.{IsOwned, owned}
use mariadb_serverless_engin.ConnectionPool.{ConnectionPool}
use mariadb_serverless_engin.SafekeeperClient.{Client}
use mariadb_serverless_engin.SafekeeperClient.Descriptors.{watched}
use mariadb_serverless_engin.Engine.{Engine}
use mariadb_serverless_engin.Plugin.{serverless_done_func}
use mariadb_serverless_engin.Plugin.Unload.{counted, handles, done-closes}
use mariadb_serverless_engin.Examples.Keepers.{calm}
use mariadb_serverless_engin.Examples.Pages.{answering, client}
use mariadb_serverless_engin.Examples.Pools.{always, given_back, history}

-- One connection in the queue, and one on the managed list.
abbrev scaled : System
scaled = record given_back { side = scale_up always given_back.side }

scaled-IsOwned : IsOwned scaled.side
scaled-IsOwned = Reach-IsOwned 2 5 (next history scales)

abbrev pool : ConnectionPool
pool = record {
  pageserver = scaled.side;
  safekeeper = scaled.side;
  health_check_running = true;
  thread_joinable = true;
  health_check_interval = 30;
}

-- A client that holds a descriptor.
abbrev linked : ℕ → Client
linked fd = record {
  server_host = codes "10.0.0.1";
  server_port = 5433;
  socket_fd = pos fd;
  connected = true;
  append_queue = [];
  shutdown_requested = false;
}

-- The clients 0 and 1 hold the descriptors 10 and 11, the legacy client 5; 4 is another's.
abbrev running : Engine (counted answering) (watched calm)
running = record {
  pool = some pool;
  pages = λ n. client;
  keepers = λ n. linked (n + 10);
  legacy_pages = some client;
  legacy_keeper = some (linked 5);
  perf_stats = record {
    total_requests = 0;
    cache_hits = 0;
    network_calls = 0;
    total_latency_ms = 0;
  };
  curl_world = (tt, 0);
  net_world = (tt, pos 10 ∷ pos 11 ∷ pos 5 ∷ pos 4 ∷ []);
}

scaled-owned : owned scaled.side ≡ some 0 ∷ some 1 ∷ []
unfolding get_begin get_finish get_timeout create_connection construct adopt is_connection_healthy
    return_connection find_erase ptr_eq init scale_up
scaled-owned = refl

done-closes_example :
    (e' : Engine (counted answering) (watched calm)) × (serverless_done_func
        (counted answering)
        (watched calm)
        running
      ≡ some e')
    × (e'.net_world.1 ≡ pos 4 ∷ [])
    × (e'.curl_world.1 ≡ 0 + (handles (owned scaled.side) running.pages + 1))
    × (e'.pool ≡ none)
    × (e'.legacy_pages ≡ none)
    × (e'.legacy_keeper ≡ none)
done-closes_example =
    done-closes answering calm running pool client (linked 5) (pos 4 ∷ []) refl scaled-IsOwned
      scaled-IsOwned refl refl refl (λ n. refl) (rw scaled-owned)
