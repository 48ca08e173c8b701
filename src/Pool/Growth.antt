-- ===== src/Pool/Growth.antt =====
-- src/connection_pool.cc: the health check's loop, scaling and the statistics of one side.
use mariadb_serverless_engin.Base.{
  ℕ, suc, ◌*◌, ◌≤◌, ◌<◌, ◌≡◌, refl, Bool, true, ◌&&◌, List, [], ◌∷◌, Option, none, some, arith,
  length, length-append, ltb, if◌then◌else◌, ◌>>=◌,
}
use mariadb_serverless_engin.Pool.{
  Ptr, Heap, Side, create_connection, adopt, get_finish, get_timeout, destroy,
  is_connection_healthy,
}

-- The loop over one managed list: an unhealthy entry is erased, which deletes its client.
unfoldable pub remove_unhealthy : List Ptr → Heap → Option (List Ptr × Heap)
unfolding is_connection_healthy destroy
remove_unhealthy [] h = some ([], h)
remove_unhealthy (p ∷ ps) h = do
  h' ← (if is_connection_healthy p then some h else destroy p h)
  (rest, h'') ← remove_unhealthy ps h'
  some ((if is_connection_healthy p then p ∷ rest else rest), h'')

unfoldable pub check_side : Side → Option Side
unfolding remove_unhealthy
check_side s = do
  (rest, h) ← remove_unhealthy s.all s.heap
  some (record s { all = rest; heap = h })

-- The entries that are not null.
abbrev pub clients : List Ptr → List Ptr
clients [] = []
clients (none ∷ ps) = clients ps
clients (some c ∷ ps) = some c ∷ clients ps

remove_unhealthy-clients : (ps : List Ptr) (h : Heap) → remove_unhealthy ps h ≡ some (clients ps, h)
unfolding remove_unhealthy
remove_unhealthy-clients [] h = refl
remove_unhealthy-clients (none ∷ ps) h = rw (remove_unhealthy-clients ps h)
remove_unhealthy-clients (some c ∷ ps) h = rw (remove_unhealthy-clients ps h)

-- The health check drops the null entries of the managed list and nothing else: no client is ever
-- found unhealthy, deleted or replaced by it.
pub check_side-clients : (s : Side) → check_side s ≡ some (record s { all = clients s.all })
unfolding check_side
check_side-clients s = rw remove_unhealthy-clients

-- A hit rate, as a fraction; the source divides in double precision.
pub record Rate : Type 0 where
  pub hits : ℕ
  pub requests : ℕ

-- 1.0 before the first request.
unfoldable pub hit_rate : Side → Rate
hit_rate s =
    if ltb 0 s.requests
    then record { hits = s.cache_hits; requests = s.requests }
    else record { hits = 1; requests = 1 }

-- `rate < 0.8`.
unfoldable pub is_low : Rate → Bool
is_low r = ltb (5 * r.hits) (4 * r.requests)

-- The condition under which one side is scaled; it is read before the lock is taken.
unfoldable pub scale_wanted : Rate → Side → Bool
unfolding is_low
scale_wanted rate s = is_low rate && ltb (length s.all) s.max_connections

-- The part under the lock.
unfoldable pub scale_up : (ℕ → Bool) → Side → Side
scale_up constructs s = (adopt s (create_connection constructs s.heap)).1

-- One side of `scale_pool_if_needed`; `others` is what other threads do between the test and the
-- lock.
unfoldable pub scale_side : (ℕ → Bool) → Rate → (Side → Side) → Side → Side
unfolding scale_wanted scale_up
scale_side constructs rate others s =
    if scale_wanted rate s then scale_up constructs (others s) else s

-- The managed list holds at most the maximum.
abbrev pub IsWithin : Side → Type 0
IsWithin s = length s.all ≤ s.max_connections

adopt_bound :
    (s : Side) (r : Ptr × Heap) {n : ℕ}
    → length s.all < n
    → (length (adopt s r).1.all ≤ n) × ((adopt s r).1.max_connections ≡ s.max_connections)
unfolding adopt
adopt_bound s (none, h) k = (omega arith, refl)
adopt_bound s (some c, h) k = (omega (arith, length-append s.all (some c ∷ [])), refl)

-- What a get does after its wait never puts more than the maximum on the managed list, where that
-- was not exceeded before.
pub get_finish-IsWithin :
    (constructs : ℕ → Bool) (s : Side) → IsWithin s → IsWithin (get_finish constructs s).1
unfolding get_finish get_timeout
get_finish-IsWithin constructs s h =
    ground (arith, adopt_bound s (create_connection constructs s.heap) {n = s.max_connections})

-- Scaling does not put more than the maximum on the managed list, where that was not exceeded
-- before, if no other thread changes the side between its test and its lock.
pub scale_side-IsWithin :
    (constructs : ℕ → Bool) (rate : Rate) (s : Side)
    → IsWithin s
    → IsWithin (scale_side constructs rate (λ t. t) s)
unfolding scale_side
scale_side-IsWithin constructs rate s h =
    ground (arith, adopt_bound s (create_connection constructs s.heap) {n = s.max_connections})

-- If a low hit rate and a list below the maximum call for a connection, other threads fill the
-- managed list between this test and the lock, and the construction returns, then scaling leaves
-- one connection more than the maximum on the list.
pub scale_side_overshoots :
    (constructs : ℕ → Bool) (rate : Rate) (others : Side → Side) (s : Side)
    → scale_wanted rate s ≡ true
    → length (others s).all ≡ s.max_connections
    → constructs (others s).heap.next ≡ true
    → length (scale_side constructs rate others s).all ≡ suc s.max_connections
unfolding scale_side create_connection adopt
scale_side_overshoots constructs rate others s wanted full returns =
    ground (arith, length-append (others s).all (some (others s).heap.next ∷ []))

unfoldable pub reset_side : Side → Side
reset_side s = record s { requests = 0; cache_hits = 0 }
