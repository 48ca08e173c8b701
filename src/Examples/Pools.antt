-- ===== src/Examples/Pools.antt =====
-- Tests and instances for `Pool` and `ConnectionPool`.
use mariadb_serverless_engin.Base.{
  ℕ, ◌+◌, ◌≡◌, refl, Bool, true, false, List, [], ◌∷◌, ◌++◌, none, some, arith, has,
}
use mariadb_serverless_engin.Pool.{
  Ptr, Side, return_connection, get_begin, get_finish, init, create_connection,
}
use mariadb_serverless_engin.Pool.Ownership.{owned}
use mariadb_serverless_engin.Pool.Warm.{
  push_all, create_into, created, warm_pageserver_connections, warm_safekeeper_connections,
  warm_pageserver_connections-both,
}
use mariadb_serverless_engin.Pool.Sharing.{gets, warm_twice-shared}
use mariadb_serverless_engin.Pool.Drain.{rounds, rounds-drop}
use mariadb_serverless_engin.Pool.Shutdown.{shutdown_side, warm_then_shutdown, owns}
use mariadb_serverless_engin.Pool.Growth.{Rate}
use mariadb_serverless_engin.Pool.Wrapper.{early, moved, wrap, scope, scope-wrap}
use mariadb_serverless_engin.Pool.Traces.{
  System, Reach, start, hit_count, begins, finishes, returns, here, next, Reach-shutdown,
}
use mariadb_serverless_engin.ConnectionPool.{ConnectionPool, Constructs, warm_connections}

abbrev pub always : ℕ → Bool
always n = true

-- An empty side, with at least two and at most five connections.
abbrev empty : Side
empty = record {
  heap = record { next = 0; destroyed = [] };
  available = [];
  all = [];
  max_connections = 5;
  min_connections = 2;
  requests = 0;
  cache_hits = 0;
}

abbrev two : List Ptr
two = some 0 ∷ some 1 ∷ []

-- The same after one warm-up.
abbrev warm : Side
warm = record empty { heap = record { next = 2; destroyed = [] }; available = two; all = two }

warms : warm_pageserver_connections always empty ≡ warm
unfolding warm_pageserver_connections create_into create_connection push_all
warms = refl

warm_pageserver_connections-both_example : warm_pageserver_connections always empty ≡ warm
unfolding created
warm_pageserver_connections-both_example = warm_pageserver_connections-both always empty

warm_twice-shared_example :
    ((gets always 4
        (warm_pageserver_connections always (warm_pageserver_connections always empty))).0
      ≡ two ++ two)
    × ((gets always 4
          (warm_safekeeper_connections always (warm_safekeeper_connections always empty))).0
        ≡ two ++ two)
unfolding created
warm_twice-shared_example = warm_twice-shared always empty refl refl

rounds-drop_example : ((rounds always 4 warm).available ≡ []) × ((rounds always 4 warm).all ≡ [])
rounds-drop_example = rounds-drop always 2 warm (tt, (tt, tt)) refl (omega arith)

warm_then_shutdown_example :
    (shutdown_side (warm_pageserver_connections always empty) ≡ none)
    × (shutdown_side (warm_safekeeper_connections always empty) ≡ none)
warm_then_shutdown_example = warm_then_shutdown always empty (omega arith) refl

abbrev poor : Rate
poor = record { hits = 1; requests = 2 }

-- Other threads fill the managed list up to its limit.
abbrev filling : Side → Side
filling s = record s { all = none ∷ none ∷ none ∷ two }

scope-wrap_example :
    scope (moved ∷ early ∷ moved ∷ []) (wrap (some 1) true) warm ≡ return_connection (some 1) warm
scope-wrap_example = scope-wrap (moved ∷ early ∷ moved ∷ []) 1 warm

-- A get begins, times out and makes connection 0, and its caller returns it.
abbrev asked : System
asked = record (start 2 5) { side = get_begin (start 2 5).side; waiting = 1; begun = 1 }

abbrev served : System
served = record asked {
  side = (get_finish always asked.side).1;
  waiting = 0;
  hits = asked.hits + hit_count asked.side.available;
}

abbrev pub given_back : System
given_back = record served { side = return_connection (some 0) served.side }

pub history : Reach always (start 2 5) given_back
history = next (next (next here begins) (finishes 0 refl)) (returns (some 0))

back_holds : (given_back.side.available ≡ some 0 ∷ []) × (given_back.side.all ≡ [])
unfolding get_begin get_finish return_connection init
back_holds = (refl, refl)

Reach-shutdown_example :
    (s' : Side) × (shutdown_side given_back.side ≡ some s')
    × (s'.available ≡ [])
    × (s'.all ≡ [])
    × ((c : ℕ) → has c s'.heap.destroyed ≡ owns c (owned given_back.side))
Reach-shutdown_example = Reach-shutdown 2 5 history

abbrev pub all_construct : Constructs
all_construct = record { pages = always; keepers = always }

abbrev fresh_pool : ConnectionPool
fresh_pool = record {
  pageserver = empty;
  safekeeper = empty;
  health_check_running = false;
  thread_joinable = false;
  health_check_interval = 30;
}

abbrev ready_pool : ConnectionPool
ready_pool = record (warm_connections all_construct fresh_pool) {
  health_check_running = true;
  thread_joinable = true;
}
