-- ===== src/ConnectionPool/Health.antt =====
-- src/connection_pool.cc: the health thread, `health_check_worker` with `scale_pool_if_needed`, and
-- the callers of the pool, in any order of the sections between which locks are released.
use mariadb_serverless_engin.Base.{
  ℕ, suc, ◌+◌, ◌≤◌, ◌<◌, ◌≡◌, refl, ◌⊎◌, inl, inr, Bool, false, Option, none, some, arith,
  if◌then◌else◌, ◌>>=◌,
}
use mariadb_serverless_engin.Pool.Growth.{
  Rate, check_side, check_side-clients, clients, hit_rate, scale_wanted, scale_up,
}
use mariadb_serverless_engin.Pool.Traces as Traces
use mariadb_serverless_engin.ConnectionPool.{Constructs}

-- Where the thread stands: at the loop's head, in its sleep, before it checks a side, reads the hit
-- rate of one (each is read at once), tests one, creates a connection for one, or at the end. The
-- rates read so far go along.
pub data Phase : Type 0 where
  head asleep checks_pages checks_keepers reads_pages : Phase
  reads_keepers : Rate → Phase
  tests_pages : Rate → Rate → Phase
  grows_pages : Rate → Phase
  tests_keepers : Rate → Phase
  grows_keepers ended : Phase

-- The two sides with the calls that are under way, and the health thread.
pub record Threads : Type 0 where
  pub pages : Traces.System
  pub keepers : Traces.System
  pub health_check_running : Bool
  pub phase : Phase

-- What the thread does next; `none` at the end, and where a deletion has no defined result.
unfoldable pub health_check_worker : Constructs → Phase → Threads → Option Threads
unfolding scale_up
health_check_worker e head s =
    some (record s { phase = if s.health_check_running then asleep else ended })
health_check_worker e asleep s =
    some (record s { phase = if s.health_check_running then checks_pages else ended })
health_check_worker e checks_pages s = check_side s.pages.side >>= λ side.
    some (record s { pages = record (s.pages) { side = side }; phase = checks_keepers })
health_check_worker e checks_keepers s = check_side s.keepers.side >>= λ side.
    some (record s { keepers = record (s.keepers) { side = side }; phase = reads_pages })
health_check_worker e reads_pages s =
    some (record s { phase = reads_keepers (hit_rate s.pages.side) })
health_check_worker e (reads_keepers r) s =
    some (record s { phase = tests_pages r (hit_rate s.keepers.side) })
health_check_worker e (tests_pages r q) s =
    some
      (record s { phase = if scale_wanted r s.pages.side then grows_pages q else tests_keepers q })
health_check_worker e (grows_pages q) s = some (record s {
  pages = record (s.pages) { side = scale_up e.pages s.pages.side };
  phase = tests_keepers q;
})
health_check_worker e (tests_keepers q) s =
    some (record s { phase = if scale_wanted q s.keepers.side then grows_keepers else head })
health_check_worker e grows_keepers s = some (record s {
  keepers = record (s.keepers) { side = scale_up e.keepers s.keepers.side };
  phase = head;
})
health_check_worker e ended s = none

module _ (e : Constructs) where
  -- A section of a call on one side, of the thread, or the beginning of `shutdown`.
  pub data Step (s : Threads) : Threads → Type 0 where
    calls_pages :
        {t : Traces.System} → Traces.Step e.pages s.pages t → Step s (record s { pages = t })
    calls_keepers :
        {t : Traces.System} → Traces.Step e.keepers s.keepers t → Step s (record s { keepers = t })
    works : {t : Threads} → health_check_worker e s.phase s ≡ some t → Step s t
    stops : Step s (record s { health_check_running = false })

  pub data Reach (s : Threads) : Threads → Type 0 where
    here : Reach s s
    next : {t u : Threads} → Reach s t → Step t u → Reach s u

  -- How many of the steps are the thread's.
  pub worked : {s t : Threads} → Reach s t → ℕ
  worked here = 0
  worked (next r (works w)) = suc (worked r)
  worked (next r (calls_pages c)) = worked r
  worked (next r (calls_keepers c)) = worked r
  worked (next r stops) = worked r

  -- An upper bound of the thread's steps before its end, once the flag is lowered.
  abbrev pub rank : Phase → ℕ
  rank ended = 0
  rank head = 1
  rank asleep = 1
  rank grows_keepers = 2
  rank (tests_keepers q) = 3
  rank (grows_pages q) = 4
  rank (tests_pages r q) = 5
  rank (reads_keepers r) = 6
  rank reads_pages = 7
  rank checks_keepers = 8
  rank checks_pages = 9

  -- Only at its end is the thread without a next step.
  worker-progress :
      (p : Phase) (s : Threads)
      → (p ≡ ended) ⊎ ((t : Threads) × (health_check_worker e p s ≡ some t))
  unfolding health_check_worker
  worker-progress head s = inr (_, refl)
  worker-progress asleep s = inr (_, refl)
  worker-progress checks_pages s = inr (
    record s {
      pages = record (s.pages) { side = record (s.pages.side) { all = clients s.pages.side.all } };
      phase = checks_keepers;
    },
    rw (check_side-clients s.pages.side, ◌>>=◌),
  )
  worker-progress checks_keepers s = inr (
    record s {
      keepers = record (s.keepers) {
        side = record (s.keepers.side) { all = clients s.keepers.side.all };
      };
      phase = reads_pages;
    },
    rw (check_side-clients s.keepers.side, ◌>>=◌),
  )
  worker-progress reads_pages s = inr (_, refl)
  worker-progress (reads_keepers r) s = inr (_, refl)
  worker-progress (tests_pages r q) s = inr (_, refl)
  worker-progress (grows_pages q) s = inr (_, refl)
  worker-progress (tests_keepers q) s = inr (_, refl)
  worker-progress grows_keepers s = inr (_, refl)
  worker-progress ended s = inl refl

  -- With the flag lowered each of its steps brings the thread nearer to its end.
  worker-rank :
      (p : Phase) (s : Threads) {t : Threads}
      → s.health_check_running ≡ false
      → health_check_worker e p s ≡ some t
      → (t.health_check_running ≡ false) × (rank t.phase < rank p)
  unfolding health_check_worker
  worker-rank head s low w = ground arith
  worker-rank asleep s low w = ground arith
  worker-rank checks_pages s low w = ground (arith, check_side-clients s.pages.side)
  worker-rank checks_keepers s low w = ground (arith, check_side-clients s.keepers.side)
  worker-rank reads_pages s low w = ground arith
  worker-rank (reads_keepers r) s low w = ground arith
  worker-rank (tests_pages r q) s low w = ground arith
  worker-rank (grows_pages q) s low w = ground arith
  worker-rank (tests_keepers q) s low w = ground arith
  worker-rank grows_keepers s low w = ground arith
  worker-rank ended s low w = cc

  Reach-rank :
      {s t : Threads} (r : Reach s t)
      → s.health_check_running ≡ false
      → (t.health_check_running ≡ false) × (worked r + rank t.phase ≤ rank s.phase)
  unfolding worked
  Reach-rank here low = (low, omega arith)
  Reach-rank (next {t} r (works w)) low =
      let (low', bound) = Reach-rank r low in
      let (low'', less) = worker-rank t.phase t low' w in (low'', omega arith)
  Reach-rank (next r (calls_pages c)) low = Reach-rank r low
  Reach-rank (next r (calls_keepers c)) low = Reach-rank r low
  Reach-rank (next r stops) low = (refl, (Reach-rank r low).1)

  rank_bound : (p : Phase) → rank p ≤ 9
  rank_bound p = ground arith

  -- Once the flag is lowered, the health thread makes at most 9 steps more, however its steps and those
  -- of the callers are ordered, and in each state that is reached it is at its end or has a next step.
  pub Reach-join :
      {s t : Threads} (r : Reach s t)
      → s.health_check_running ≡ false
      → (worked r ≤ 9)
        × ((t.phase ≡ ended) ⊎ ((u : Threads) × (health_check_worker e t.phase t ≡ some u)))
  Reach-join {s} {t} r low =
      (omega (arith, (Reach-rank r low).1, rank_bound s.phase), worker-progress t.phase t)
