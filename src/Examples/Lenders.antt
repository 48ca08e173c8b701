-- ===== src/Examples/Lenders.antt =====
-- Instances for the pool under its threads.
use mariadb_serverless_engin.Base.{◌+◌, ◌≡◌, ◌≤◌, ◌<◌, ◌⊎◌, refl, true, false, [], some, arith, has}
use mariadb_serverless_engin.Pool.{
  Side, construct, is_connection_healthy, get_finish, init, create_connection, get_begin,
}
use mariadb_serverless_engin.Pool.Ownership.{IsOwned}
use mariadb_serverless_engin.Pool.Shutdown.{shutdown_side}
use mariadb_serverless_engin.Pool.Growth.{scale_up}
use mariadb_serverless_engin.Pool.Traces as Traces
use mariadb_serverless_engin.Pool.Lending as Lending
use mariadb_serverless_engin.Pool.Lending.{times, owners, pageservers, cold, warmed}
use mariadb_serverless_engin.Pool.Lending.Once.{Reach-exclusive, Reach-scaled_idle, held-shutdown}
use mariadb_serverless_engin.ConnectionPool.Health as Health
use mariadb_serverless_engin.ConnectionPool.Health.{
  Threads, head, asleep, checks_pages, ended, health_check_worker, worked, Reach-join,
}
use mariadb_serverless_engin.ConnectionPool.Sides.{Limits, Moves, start, Reach-sides}
use mariadb_serverless_engin.Examples.Pools.{always, all_construct}

-- A get from a warmed side, and then the scaling.
abbrev warmed_start : Lending.System
warmed_start = Lending.start pageservers always 2 5

abbrev asked : Lending.System
asked = record warmed_start { side = get_begin warmed_start.side; waiting = 1 }

abbrev got : Lending.System
got = record asked {
  side = (get_finish always asked.side).1;
  waiting = 0;
  lent = Lending.taken (get_finish always asked.side).0 [];
}

lends : Lending.Reach always warmed_start got
unfolding Lending.start
lends =
    Lending.Reach.next (Lending.Reach.next Lending.Reach.here Lending.Step.begins)
      (Lending.Step.finishes 0 refl)

Reach-exclusive_example : times 0 got.lent + owners 0 got.side.available ≤ 1
Reach-exclusive_example = Reach-exclusive pageservers 2 5 0 lends

-- The scaling of a new side makes client 0.
abbrev cold_start : Lending.System
cold_start = Lending.start cold always 2 5

abbrev grown : Lending.System
grown = record cold_start {
  side = scale_up always cold_start.side;
  scaled = Lending.taken (Lending.newcomer always cold_start.side) [];
}

grows : Lending.Reach always cold_start grown
unfolding Lending.start
grows = Lending.Reach.next Lending.Reach.here Lending.Step.scales

grown-scaled : 0 < times 0 grown.scaled
unfolding Lending.start warmed init create_connection construct is_connection_healthy
grown-scaled = omega arith

Reach-scaled_idle_example :
    (0 < owners 0 grown.side.all) × (times 0 grown.lent ≡ 0) × (owners 0 grown.side.available ≡ 0)
Reach-scaled_idle_example = Reach-scaled_idle cold 2 5 0 grows grown-scaled

abbrev idle : Side
idle = init (record { next = 0; destroyed = [] }) 2 5

idle-IsOwned : IsOwned idle
idle-IsOwned = Traces.start-IsOwned 2 5

held-shutdown_example :
    ((get_finish always idle).0 ≡ some 0)
    × ((s' : Side) × (shutdown_side (get_finish always idle).1 ≡ some s')
        × (has 0 s'.heap.destroyed ≡ true))
unfolding init
held-shutdown_example = held-shutdown always idle idle-IsOwned refl (omega arith) refl

-- The thread falls asleep, the shutdown lowers the flag, and the thread ends.
abbrev sleeping : Threads
sleeping = record {
  pages = Traces.start 1 4;
  keepers = Traces.start 1 4;
  health_check_running = true;
  phase = asleep;
}

abbrev lowered : Threads
lowered = record sleeping { health_check_running = false }

abbrev joined : Threads
joined = record lowered { phase = ended }

joins : Health.Reach all_construct lowered joined
unfolding health_check_worker
joins = Health.Reach.next Health.Reach.here (Health.Step.works refl)

Reach-join_example :
    (worked all_construct joins ≤ 9)
    × ((joined.phase ≡ ended)
        ⊎ ((u : Threads) × (health_check_worker all_construct joined.phase joined ≡ some u)))
Reach-join_example = Reach-join all_construct joins refl

abbrev limits : Limits all_construct
limits = record { min_pageserver = 1; max_pageserver = 4; min_safekeeper = 1; max_safekeeper = 4 }

abbrev begun : Threads
begun = record (start all_construct limits) { phase = asleep }

begins : Health.Reach all_construct (start all_construct limits) begun
unfolding health_check_worker
begins = Health.Reach.next Health.Reach.here (Health.Step.works refl)

Reach-sides_example : Moves all_construct (start all_construct limits) begun
Reach-sides_example = Reach-sides all_construct limits begins
