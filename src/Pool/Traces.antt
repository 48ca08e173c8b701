-- ===== src/Pool/Traces.antt =====
-- src/connection_pool.cc: one side under any interleaving of its callers and of the health thread,
-- from a pool that was not warmed.
use mariadb_serverless_engin.Base.{
  ℕ, suc, ◌+◌, ◌≤◌, ◌<◌, ◌%◌, ◌^◌, ◌≡◌, refl, Bool, List, [], ◌∷◌, none, some, arith, has,
}
use mathlib.Core.List.{not-mem-nil, Nodup-nil}
use mariadb_serverless_engin.Pool.{
  Ptr, Heap, Side, init, get_begin, get_finish, get_timeout, adopt, create_connection,
  return_connection, get_connection,
}
use mariadb_serverless_engin.Pool.Ownership.{
  IsOwned, owned, get_finish-IsOwned, return_connection-IsOwned, adopt-create-IsOwned,
}
use mariadb_serverless_engin.Pool.Growth.{scale_up, hit_rate, reset_side}
use mariadb_serverless_engin.Pool.Shutdown.{shutdown_side, shutdown_side-IsOwned, owns}

-- A side, the calls that wait in a get, and the numbers of gets begun and of hits so far.
pub record System : Type 0 where
  pub side : Side
  pub waiting : ℕ
  pub begun : ℕ
  pub hits : ℕ

abbrev pub hit_count : List Ptr → ℕ
hit_count [] = 0
hit_count (p ∷ ps) = 1

-- What one thread does between two releases of the lock.
pub data Step (constructs : ℕ → Bool) (s : System) : System → Type 0 where
  begins :
      Step constructs s
        (record s { side = get_begin s.side; waiting = suc s.waiting; begun = suc s.begun })
  finishes :
      (n : ℕ)
      → s.waiting ≡ suc n
      → Step constructs s (record s {
        side = (get_finish constructs s.side).1;
        waiting = n;
        hits = s.hits + hit_count s.side.available;
      })
  returns : (client : Ptr) → Step constructs s (record s { side = return_connection client s.side })
  scales : Step constructs s (record s { side = scale_up constructs s.side })

pub data Reach (constructs : ℕ → Bool) (s : System) : System → Type 0 where
  here : Reach constructs s s
  next : {t u : System} → Reach constructs s t → Step constructs t u → Reach constructs s u

abbrev pub start : ℕ → ℕ → System
start min max = record {
  side = init (record { next = 0; destroyed = [] }) min max;
  waiting = 0;
  begun = 0;
  hits = 0;
}

Step-IsOwned :
    {constructs : ℕ → Bool} {s t : System} → Step constructs s t → IsOwned s.side → IsOwned t.side
unfolding get_begin scale_up
Step-IsOwned begins v = record { distinct = v.distinct; made = v.made; alive = v.alive }
Step-IsOwned {constructs} {s} (finishes n e) v = get_finish-IsOwned constructs s.side v
Step-IsOwned {constructs} {s} (returns client) v = return_connection-IsOwned client s.side v
Step-IsOwned {constructs} {s} scales v = adopt-create-IsOwned constructs s.side v

pub start-IsOwned : (min max : ℕ) → IsOwned (start min max).side
unfolding init
start-IsOwned min max = record {
  distinct = Nodup-nil;
  made = λ p m. absurd (not-mem-nil m);
  alive = refl;
}

-- Whatever the threads do, no connection is owned twice, none is null or deleted.
pub Reach-IsOwned :
    {constructs : ℕ → Bool} (min max : ℕ) {t : System}
    → Reach constructs (start min max) t
    → IsOwned t.side
Reach-IsOwned min max here = start-IsOwned min max
Reach-IsOwned min max (next r st) = Step-IsOwned st (Reach-IsOwned min max r)

-- From a side that was not warmed, in every state that gets, returns and scaling reach in
-- whatever order, a shutdown succeeds, empties both lists, and deletes exactly the connections
-- that the pool owns then, each once.
pub Reach-shutdown :
    {constructs : ℕ → Bool} (min max : ℕ) {t : System}
    → Reach constructs (start min max) t
    → (s' : Side) × (shutdown_side t.side ≡ some s')
      × (s'.available ≡ [])
      × (s'.all ≡ [])
      × ((c : ℕ) → has c s'.heap.destroyed ≡ owns c (owned t.side))
Reach-shutdown min max r = shutdown_side-IsOwned _ (Reach-IsOwned min max r)

-- The counters are the true counts, modulo the width of a counter.
record IsCounted (s : System) : Type 0 where
  requests_count : s.side.requests ≡ s.begun % 2 ^ 64
  hits_count : s.side.cache_hits ≡ s.hits % 2 ^ 64
  answered : s.hits + s.waiting ≤ s.begun

adopt_counts :
    (s : Side) (r : Ptr × Heap)
    → ((adopt s r).1.requests ≡ s.requests) × ((adopt s r).1.cache_hits ≡ s.cache_hits)
unfolding adopt
adopt_counts s (none, h) = (refl, refl)
adopt_counts s (some c, h) = (refl, refl)

finish_counts :
    (constructs : ℕ → Bool) (s : Side) (hits : ℕ)
    → s.cache_hits ≡ hits % 2 ^ 64
    → ((get_finish constructs s).1.requests ≡ s.requests)
      × ((get_finish constructs s).1.cache_hits ≡ (hits + hit_count s.available) % 2 ^ 64)
unfolding get_finish get_timeout
finish_counts constructs s hits e =
    ground (arith, adopt_counts s (create_connection constructs s.heap))

return_counts :
    (client : Ptr) (s : Side)
    → ((return_connection client s).requests ≡ s.requests)
      × ((return_connection client s).cache_hits ≡ s.cache_hits)
unfolding return_connection
return_counts none s = (refl, refl)
return_counts (some c) s = ground arith

hit_count_le : (ps : List Ptr) → hit_count ps ≤ 1
hit_count_le [] = omega arith
hit_count_le (p ∷ ps) = omega arith

Step-IsCounted :
    {constructs : ℕ → Bool} {s t : System} → Step constructs s t → IsCounted s → IsCounted t
unfolding get_begin scale_up
Step-IsCounted begins v = omega arith
Step-IsCounted {constructs} {s} (finishes n e) v =
    omega
      (arith, finish_counts constructs s.side s.hits v.hits_count, hit_count_le s.side.available)
Step-IsCounted {s} (returns client) v = omega (arith, return_counts client s.side)
Step-IsCounted {constructs} {s} scales v =
    omega (arith, adopt_counts s.side (create_connection constructs s.side.heap))

Reach-IsCounted :
    {constructs : ℕ → Bool} (min max : ℕ) {t : System}
    → Reach constructs (start min max) t
    → IsCounted t
unfolding init
Reach-IsCounted min max here = omega arith
Reach-IsCounted min max (next r st) = Step-IsCounted st (Reach-IsCounted min max r)

-- From a new side, as long as fewer than 2 ^ 64 gets have begun and the statistics are not reset,
-- the hits of the reported rate are at most its requests, whatever the threads do.
pub Reach-hit_rate :
    {constructs : ℕ → Bool} (min max : ℕ) {t : System}
    → Reach constructs (start min max) t
    → t.begun < 2 ^ 64
    → (hit_rate t.side).hits ≤ (hit_rate t.side).requests
unfolding hit_rate
Reach-hit_rate min max r h = let v = Reach-IsCounted min max r in ground arith

-- A reset between the two halves of a get breaks that: a hit is then counted without its request.
pub reset_between :
    (constructs : ℕ → Bool) (s : Side) (p : Ptr) (queue : List Ptr)
    → s.available ≡ p ∷ queue
    → let t = (get_connection constructs reset_side s).1 in (t.requests ≡ 0) × (t.cache_hits ≡ 1)
unfolding get_connection get_finish reset_side
reset_between constructs s p queue e = ground arith
