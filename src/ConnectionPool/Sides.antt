-- ===== src/ConnectionPool/Sides.antt =====
-- src/connection_pool.cc: the whole pool, not warmed, against two sides that know nothing of one
-- another and of the health checks.
use mathlib.Core.List.{mem-cons_self, mem-cons_of_mem, mem-append_right}
use mariadb_serverless_engin.Base.{
  some-inj, ℕ, Bool, false, ◌≡◌, refl, ap, ◌∙◌, subst, List, [], ◌∷◌, Mem, none, some, true, ◌>>=◌,
}
use mariadb_serverless_engin.Pool.{Ptr, Side}
use mariadb_serverless_engin.Pool.Ownership.{IsOwned, IsBelow}
use mariadb_serverless_engin.Pool.Growth.{check_side, check_side-clients, clients}
use mariadb_serverless_engin.Pool.Traces as Traces
use mariadb_serverless_engin.ConnectionPool.{Constructs, ConnectionPool, shutdown}
use mariadb_serverless_engin.ConnectionPool.Health.{
  Phase, head, asleep, checks_pages, checks_keepers, reads_pages, reads_keepers, tests_pages,
  grows_pages, tests_keepers, grows_keepers, ended, Threads, health_check_worker, Reach,
  calls_pages, calls_keepers, works, stops, here, next,
}

clients-all : (n : ℕ) (ps : List Ptr) → ((p : Ptr) → Mem p ps → IsBelow n p) → clients ps ≡ ps
clients-all n [] m = refl
clients-all n (none ∷ ps) m = absurd (m none mem-cons_self)
clients-all n (some c ∷ ps) m =
    ap (◌∷◌ (some c)) (clients-all n ps (λ p k. m p (mem-cons_of_mem (some c) k)))

-- A check finds nothing to remove.
check_side-IsOwned : (s : Side) → IsOwned s → check_side s ≡ some s
check_side-IsOwned s v =
    check_side-clients s
    ∙ ap (λ ps. some (record s { all = ps }))
        (clients-all s.heap.next s.all (λ p k. v.made p (mem-append_right s.available k)))

Traces-trans :
    {constructs : ℕ → Bool} {s t u : Traces.System}
    → Traces.Reach constructs s t
    → Traces.Reach constructs t u
    → Traces.Reach constructs s u
Traces-trans r Traces.Reach.here = r
Traces-trans r (Traces.Reach.next q st) = Traces.Reach.next (Traces-trans r q) st

module _ (e : Constructs) where
  -- Both sides move as sides do by themselves.
  abbrev pub Moves : Threads → Threads → Type 0
  Moves s t = Traces.Reach e.pages s.pages t.pages × Traces.Reach e.keepers s.keepers t.keepers

  worker-Moves :
      (p : Phase) (s : Threads) {t : Threads}
      → IsOwned s.pages.side
      → IsOwned s.keepers.side
      → health_check_worker e p s ≡ some t
      → Moves s t
  unfolding health_check_worker
  worker-Moves head s v k w = subst (Moves s) (some-inj w) (Traces.Reach.here, Traces.Reach.here)
  worker-Moves asleep s v k w = subst (Moves s) (some-inj w) (Traces.Reach.here, Traces.Reach.here)
  worker-Moves checks_pages s v k w =
      subst (Moves s) (some-inj (rw (check_side-IsOwned s.pages.side v) at w))
        (Traces.Reach.here, Traces.Reach.here)
  worker-Moves checks_keepers s v k w =
      subst (Moves s) (some-inj (rw (check_side-IsOwned s.keepers.side k) at w))
        (Traces.Reach.here, Traces.Reach.here)
  worker-Moves reads_pages s v k w =
      subst (Moves s) (some-inj w) (Traces.Reach.here, Traces.Reach.here)
  worker-Moves (reads_keepers r) s v k w =
      subst (Moves s) (some-inj w) (Traces.Reach.here, Traces.Reach.here)
  worker-Moves (tests_pages r q) s v k w =
      subst (Moves s) (some-inj w) (Traces.Reach.here, Traces.Reach.here)
  worker-Moves (grows_pages q) s v k w =
      subst (Moves s) (some-inj w)
        (Traces.Reach.next Traces.Reach.here Traces.Step.scales, Traces.Reach.here)
  worker-Moves (tests_keepers q) s v k w =
      subst (Moves s) (some-inj w) (Traces.Reach.here, Traces.Reach.here)
  worker-Moves grows_keepers s v k w =
      subst (Moves s) (some-inj w)
        (Traces.Reach.here, Traces.Reach.next Traces.Reach.here Traces.Step.scales)
  worker-Moves ended s v k w = cc

  -- The limits of the two sides of a new pool.
  pub record Limits : Type 0 where
    pub min_pageserver : ℕ
    pub max_pageserver : ℕ
    pub min_safekeeper : ℕ
    pub max_safekeeper : ℕ

  abbrev pub start : Limits → Threads
  start l = record {
    pages = Traces.start l.min_pageserver l.max_pageserver;
    keepers = Traces.start l.min_safekeeper l.max_safekeeper;
    health_check_running = true;
    phase = head;
  }

  -- Whatever the callers and the health thread of a pool do that was not warmed, each of its two sides
  -- goes through states that a side by itself can reach by calls and by its own scaling.
  pub Reach-sides : (l : Limits) {t : Threads} → Reach e (start l) t → Moves (start l) t
  Reach-sides l here = (Traces.Reach.here, Traces.Reach.here)
  Reach-sides l (next r (calls_pages c)) =
      let (p, k) = Reach-sides l r in (Traces.Reach.next p c, k)
  Reach-sides l (next r (calls_keepers c)) =
      let (p, k) = Reach-sides l r in (p, Traces.Reach.next k c)
  Reach-sides l (next {t} r (works w)) =
      let (p, k) = Reach-sides l r in
      let (p', k') =
        worker-Moves t.phase t (Traces.Reach-IsOwned l.min_pageserver l.max_pageserver p)
          (Traces.Reach-IsOwned l.min_safekeeper l.max_safekeeper k) w in
      (Traces-trans p p', Traces-trans k k')
  Reach-sides l (next r stops) = Reach-sides l r

  -- A shutdown of the whole pool, not warmed, succeeds in every such state, and empties all lists.
  pub Reach-shutdown_pool :
      (l : Limits) {t : Threads} (p : ConnectionPool)
      → Reach e (start l) t
      → p.pageserver ≡ t.pages.side
      → p.safekeeper ≡ t.keepers.side
      → (q : ConnectionPool) × (shutdown p ≡ some q)
        × (q.pageserver.available ≡ [])
        × (q.pageserver.all ≡ [])
        × (q.safekeeper.available ≡ [])
        × (q.safekeeper.all ≡ [])
  unfolding shutdown
  Reach-shutdown_pool l {t} p r same_pages same_keepers =
      let (pages, keepers) = Reach-sides l r in
      let (s, done, a, b, _) = Traces.Reach-shutdown l.min_pageserver l.max_pageserver pages in
      let (s', done', a', b', _) =
        Traces.Reach-shutdown l.min_safekeeper l.max_safekeeper keepers in
      (
        record p {
          pageserver = s;
          safekeeper = s';
          health_check_running = false;
          thread_joinable = false;
        },
        rw (same_pages, done, ◌>>=◌, same_keepers, done'),
        a,
        b,
        a',
        b',
      )
