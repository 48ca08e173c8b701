-- ===== src/Pool/Lending/Once.antt =====
-- src/connection_pool.cc: what holds of the connections that the callers of a side hold.
use mariadb_serverless_engin.Base.{
  ℕ, zero, suc, ◌+◌, ◌≤◌, ◌<◌, ◌≡◌, ◌∙◌, Bool, true, List, [], ◌∷◌, ◌++◌, none, some, arith, has,
  length, if◌then◌else◌, ◌==◌, ==_iff, ==_refl, Option-cases, inl, inr,
}
use mariadb_serverless_engin.Pool.{
  Ptr, Side, init, get_begin, get_finish, get_timeout, adopt, create_connection, return_connection,
  find_erase, ptr_eq,
}
use mariadb_serverless_engin.Pool.Growth.{scale_up}
use mariadb_serverless_engin.Pool.Warm.{
  created, warm_pageserver_connections-both, warm_safekeeper_connections-both,
}
use mariadb_serverless_engin.Pool.Ownership.{owned, IsOwned, get_finish-IsOwned}
use mariadb_serverless_engin.Pool.Shutdown.{shutdown_side, shutdown_side-IsOwned, owns, owns-append}
use mariadb_serverless_engin.Pool.Lending.{
  times, owners, taken, given_back, newcomer, System, Step, begins, finishes, returns, scales,
  Reach, here, next, Warmth, cold, pageservers, safekeepers, warmed, start,
}

-- What holds of one client: it is queued or held at most once, and not both; if it was made by the
-- scaling it is neither, and is managed; and a client that is not made yet is nowhere.
pub record IsLentOnce (s : Side) (lent scaled : List ℕ) (c : ℕ) : Type 0 where
  pub once : times c lent + owners c s.available ≤ 1
  pub idle : 0 < times c scaled → times c lent + owners c s.available ≡ 0
  pub managed : times c scaled ≤ owners c s.all
  pub fresh :
      s.heap.next ≤ c → times c lent + owners c s.available + (owners c s.all + times c scaled) ≡ 0

pub owners-append : (c : ℕ) (ps qs : List Ptr) → owners c (ps ++ qs) ≡ owners c ps + owners c qs
owners-append c [] qs = omega arith
owners-append c (p ∷ ps) qs = omega (arith, owners-append c ps qs)

times-given_back :
    (c x : ℕ) (xs : List ℕ)
    → 0 < times x xs
    → times c xs ≡ (if x == c then 1 else 0) + times c (given_back x xs)
times-given_back c x [] h = absurd (omega arith)
times-given_back c x (y ∷ ys) h = ground (arith, times-given_back c x ys)

-- Taking a client out of the managed list.
pub owners-find_erase :
    (c x : ℕ) (ps : List Ptr) (it : Ptr) (rest : List Ptr)
    → find_erase (some x) ps ≡ some (it, rest)
    → (it ≡ some x) × (owners c ps ≡ (if x == c then 1 else 0) + owners c rest)
unfolding find_erase ptr_eq
owners-find_erase c x [] it rest e = cc
owners-find_erase c x (none ∷ ps) it rest e = elim (Option-cases (find_erase (some x) ps)) [
  | inl absent ↦ ground arith
  | inr ((q, kept), e') ↦ ground (arith, owners-find_erase c x ps q kept e')
]
owners-find_erase c x (some y ∷ ps) it rest e = elim (Option-cases (find_erase (some x) ps)) [
  | inl absent ↦ ground arith
  | inr ((q, kept), e') ↦ ground (arith, owners-find_erase c x ps q kept e')
]

-- A new connection is managed, and its number is used up.
adopt_counts :
    (c : ℕ) (constructs : ℕ → Bool) (s : Side)
    → let (p, s') = adopt s (create_connection constructs s.heap) in
      (s'.available ≡ s.available)
      × (s'.heap.next ≡ suc s.heap.next)
      × (owners c s'.all ≡ owners c s.all + owners c (p ∷ []))
      × (0 < owners c (p ∷ []) → c ≡ s.heap.next)
      × (p ≡ newcomer constructs s)
unfolding adopt create_connection
adopt_counts c constructs s =
    ground (arith, owners-append c s.all (some s.heap.next ∷ []), ==_iff s.heap.next c)

times-taken :
    (c : ℕ) (p : Ptr) (lent : List ℕ) → times c (taken p lent) ≡ owners c (p ∷ []) + times c lent
times-taken c none lent = omega arith
times-taken c (some x) lent = ground arith

module _ (constructs : ℕ → Bool) (s : Side) (lent scaled : List ℕ) (c : ℕ)
    (v : IsLentOnce s lent scaled c) where
  adopt-lent :
      let (p, s') = adopt s (create_connection constructs s.heap) in
      IsLentOnce s' (taken p lent) scaled c
  unfolding adopt create_connection
  adopt-lent = ground (arith, owners-append c s.all (some s.heap.next ∷ []), ==_iff s.heap.next c)

  adopt-scaled :
      IsLentOnce
        (adopt s (create_connection constructs s.heap)).1
        lent
        (taken (newcomer constructs s) scaled)
        c
  unfolding adopt create_connection
  adopt-scaled = ground (arith, owners-append c s.all (some s.heap.next ∷ []), ==_iff s.heap.next c)

  finish-lent :
      IsLentOnce (get_finish constructs s).1 (taken (get_finish constructs s).0 lent) scaled c
  unfolding get_finish get_timeout
  finish-lent = ground (arith, adopt-lent)

  return-lent :
      (x : ℕ)
      → 0 < times x lent
      → IsLentOnce (return_connection (some x) s) (given_back x lent) scaled c
  unfolding return_connection
  return-lent x h = elim (Option-cases (find_erase (some x) s.all)) [
    | inl unknown ↦
        rw (unknown, return_connection) (ground (arith, times-given_back c x lent, ==_iff x c))
    | inr ((it, rest), managed) ↦
        let (same, split) = owners-find_erase c x s.all it rest managed in
        rw (managed, return_connection, same)
          (ground (
            arith,
            times-given_back c x lent,
            owners-append c s.available (some x ∷ []),
            ==_iff x c,
          ))
  ]

Step-IsLentOnce :
    {constructs : ℕ → Bool} {s t : System} (c : ℕ)
    → Step constructs s t
    → IsLentOnce s.side s.lent s.scaled c
    → IsLentOnce t.side t.lent t.scaled c
unfolding get_begin scale_up
Step-IsLentOnce c begins v = record {
  once = v.once;
  idle = v.idle;
  managed = v.managed;
  fresh = v.fresh;
}
Step-IsLentOnce {constructs} {s} c (finishes n e) v =
    finish-lent constructs s.side s.lent s.scaled c v
Step-IsLentOnce {constructs} {s} c (returns x h) v =
    return-lent constructs s.side s.lent s.scaled c v x h
Step-IsLentOnce {constructs} {s} c scales v = adopt-scaled constructs s.side s.lent s.scaled c v

-- The clients of a warm-up have different numbers, from `i` to `i + n - 1`.
owners-created :
    (c : ℕ) (constructs : ℕ → Bool) (n i : ℕ)
    → (owners c (created constructs n i) ≤ 1)
      × (c < i → owners c (created constructs n i) ≡ 0)
      × (i + n ≤ c → owners c (created constructs n i) ≡ 0)
unfolding created
owners-created c constructs zero i = omega arith
owners-created c constructs (suc n) i = ground (arith, owners-created c constructs n (suc i))

start-IsLentOnce :
    (w : Warmth) (constructs : ℕ → Bool) (min max c : ℕ)
    → IsLentOnce (start w constructs min max).side [] [] c
unfolding start warmed init
start-IsLentOnce cold constructs min max c = omega arith
start-IsLentOnce pageservers constructs min max c =
    rw warm_pageserver_connections-both (grind (arith, owners-created c constructs min 0))
start-IsLentOnce safekeepers constructs min max c =
    rw warm_safekeeper_connections-both (grind (arith, owners-created c constructs min 0))

Reach-IsLentOnce :
    {constructs : ℕ → Bool} (w : Warmth) (min max c : ℕ) {t : System}
    → Reach constructs (start w constructs min max) t
    → IsLentOnce t.side t.lent t.scaled c
unfolding start
Reach-IsLentOnce {constructs} w min max c here = start-IsLentOnce w constructs min max c
Reach-IsLentOnce w min max c (next r st) = Step-IsLentOnce c st (Reach-IsLentOnce w min max c r)

-- From a new side, whether or not it was warmed, once, in every state that is reached by gets, by
-- returns of what is held, and by scaling, no connection is held by two callers, none that is held
-- is in the queue, and none is queued twice.
pub Reach-exclusive :
    {constructs : ℕ → Bool} (w : Warmth) (min max c : ℕ) {t : System}
    → Reach constructs (start w constructs min max) t
    → times c t.lent + owners c t.side.available ≤ 1
Reach-exclusive w min max c r = (Reach-IsLentOnce w min max c r).once

-- From a new side, warmed or not, in every state that is reached by gets, by returns of what is held,
-- and by scaling, a connection that the scaling made is managed, and so takes up room below the
-- maximum, but it is not in the queue, and no caller holds it: scaling adds no connection for use.
pub Reach-scaled_idle :
    {constructs : ℕ → Bool} (w : Warmth) (min max c : ℕ) {t : System}
    → Reach constructs (start w constructs min max) t
    → 0 < times c t.scaled
    → (0 < owners c t.side.all) × (times c t.lent ≡ 0) × (owners c t.side.available ≡ 0)
Reach-scaled_idle w min max c r h = let v = Reach-IsLentOnce w min max c r in omega arith

-- Let a side own no client twice, have an empty queue and room for a connection, and let the next
-- construction return. A get then makes a new connection, and a shutdown before its return has a
-- defined result and deletes that connection.
pub held-shutdown :
    (constructs : ℕ → Bool) (s : Side)
    → IsOwned s
    → s.available ≡ []
    → length s.all < s.max_connections
    → constructs s.heap.next ≡ true
    → ((get_finish constructs s).0 ≡ some s.heap.next)
      × ((s' : Side) × (shutdown_side (get_finish constructs s).1 ≡ some s')
          × (has s.heap.next s'.heap.destroyed ≡ true))
unfolding get_finish get_timeout create_connection adopt
held-shutdown constructs s v empty room made =
    let c = s.heap.next in
    let t = (get_finish constructs s).1 in
    let (s', done, _, _, deleted) = shutdown_side-IsOwned t (get_finish-IsOwned constructs s v) in
    let got : (get_finish constructs s).0 ≡ some c = ground arith in
    let kept : owns c (owned t) ≡ true =
      ground
        (arith, owns-append c t.available t.all, owns-append c s.all (some c ∷ []), ==_refl c) in
    (got, (s', done, deleted c ∙ kept))
