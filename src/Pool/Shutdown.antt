-- ===== src/Pool/Shutdown.antt =====
-- src/connection_pool.cc, `shutdown`: deleting what a side owns.
use mathlib.Core.List.{Nodup-cons, mem-cons_self, mem-cons_of_mem}
use mariadb_serverless_engin.Base.{
  ℕ, zero, suc, ◌<◌, ◌≡◌, refl, sym, ap, ◌∙◌, inl, inr, Bool, true, false, ◌||◌, List, [], ◌∷◌,
  ◌++◌, Nodup, Mem, Option, none, some, arith, Bool-cases, Option-cases, has, ◌==◌, ==_iff, ==_refl,
  ◌>>=◌,
}
use mariadb_serverless_engin.Pool.{Ptr, Heap, Side, destroy}
use mariadb_serverless_engin.Pool.Ownership.{owned, IsOwned, IsBelow}
use mariadb_serverless_engin.Pool.Warm.{
  created, warm_pageserver_connections, warm_safekeeper_connections,
  warm_pageserver_connections-both, warm_safekeeper_connections-both,
}

-- Popping the queue until it is empty, and `clear` of the vector: every pointer is destroyed.
unfoldable pub destroy_all : List Ptr → Heap → Option Heap
unfolding destroy
destroy_all [] h = some h
destroy_all (p ∷ ps) h = destroy p h >>= destroy_all ps

unfoldable pub shutdown_side : Side → Option Side
shutdown_side s = do
  h ← destroy_all s.available s.heap
  h' ← destroy_all s.all h
  some (record s { heap = h'; available = []; all = [] })

-- Whether the client is behind one of the pointers.
abbrev pub owns : ℕ → List Ptr → Bool
owns c [] = false
owns c (none ∷ ps) = owns c ps
owns c (some d ∷ ps) = (c == d) || owns c ps

pub owns-append : (c : ℕ) (xs ys : List Ptr) → owns c (xs ++ ys) ≡ (owns c xs || owns c ys)
owns-append c [] ys = refl
owns-append c (none ∷ xs) ys = owns-append c xs ys
owns-append c (some d ∷ xs) ys = ground (arith, owns-append c xs ys)

Mem-owns : (c : ℕ) (ps : List Ptr) → owns c ps ≡ true → Mem (some c) ps
Mem-owns c [] h = cc
Mem-owns c (none ∷ ps) h = mem-cons_of_mem none (Mem-owns c ps h)
Mem-owns c (some d ∷ ps) h = elim (Bool-cases (c == d)) [
  | inl hit ↦ rw ((==_iff c d).0 hit) mem-cons_self
  | inr miss ↦ mem-cons_of_mem (some d) (Mem-owns c ps (ground arith))
]

-- What was deleted stays deleted, and everything that is destroyed now is deleted then.
destroy_all-has :
    (c : ℕ) (ps : List Ptr) (h h' : Heap)
    → destroy_all ps h ≡ some h'
    → has c h'.destroyed ≡ (has c h.destroyed || owns c ps)
unfolding destroy_all
destroy_all-has c [] h h' e = ground arith
destroy_all-has c (none ∷ ps) h h' e = destroy_all-has c ps h h' e
destroy_all-has c (some d ∷ ps) h h' e =
    ground (arith, destroy_all-has c ps (record h { destroyed = d ∷ h.destroyed }) h')

destroy_all-next : (ps : List Ptr) (h h' : Heap) → destroy_all ps h ≡ some h' → h'.next ≡ h.next
unfolding destroy_all
destroy_all-next [] h h' e = ground arith
destroy_all-next (none ∷ ps) h h' e = destroy_all-next ps h h' e
destroy_all-next (some d ∷ ps) h h' e =
    ground (arith, destroy_all-next ps (record h { destroyed = d ∷ h.destroyed }) h')

-- To destroy a pointer to a deleted client has no defined result.
destroy_all-none :
    (c : ℕ) (ps : List Ptr) (h : Heap)
    → has c h.destroyed ≡ true
    → owns c ps ≡ true
    → destroy_all ps h ≡ none
unfolding destroy_all
destroy_all-none c [] h d e = cc
destroy_all-none c (none ∷ ps) h d e = destroy_all-none c ps h d e
destroy_all-none c (some x ∷ ps) h d e =
    ground (arith, ==_iff c x, destroy_all-none c ps (record h { destroyed = x ∷ h.destroyed }))

-- A client with a `unique_ptr` in the queue and another in the managed list is deleted twice: the
-- shutdown has no defined result.
pub shutdown_side-none :
    (c : ℕ) (s : Side) → owns c s.available ≡ true → owns c s.all ≡ true → shutdown_side s ≡ none
unfolding shutdown_side
shutdown_side-none c s a b = elim (Option-cases (destroy_all s.available s.heap)) [
  | inl e ↦ rw (e, ◌>>=◌)
  | inr (h, e) ↦ rw (e, ◌>>=◌) (rw (destroy_all-none c s.all h (deleted h e) b, ◌>>=◌))
]
  where
    deleted : (h : Heap) → destroy_all s.available s.heap ≡ some h → has c h.destroyed ≡ true
    deleted h e = ground (arith, destroy_all-has c s.available s.heap h e)

created-owns :
    (constructs : ℕ → Bool) (n i : ℕ)
    → 0 < n
    → constructs i ≡ true
    → owns i (created constructs n i) ≡ true
unfolding created
created-owns constructs zero i h e = elim h [ ]
created-owns constructs (suc n) i h e = ground (arith, ==_refl i)

-- After a warm-up, of either kind, with a minimum of at least one, whose first construction
-- returns, a shutdown has no defined result: it deletes a client a second time.
pub warm_then_shutdown :
    (constructs : ℕ → Bool) (s : Side)
    → 0 < s.min_connections
    → constructs s.heap.next ≡ true
    → (shutdown_side (warm_pageserver_connections constructs s) ≡ none)
      × (shutdown_side (warm_safekeeper_connections constructs s) ≡ none)
warm_then_shutdown constructs s positive returns = (
  rw warm_pageserver_connections-both (shutdown_side-none first _ in_pages in_pages),
  rw warm_safekeeper_connections-both (shutdown_side-none first _ in_queue in_keepers),
)
  where
    first : ℕ
    first = s.heap.next

    new : List Ptr
    new = created constructs s.min_connections first

    made : owns first new ≡ true
    made = created-owns constructs s.min_connections first positive returns

    in_pages : owns first (s.all ++ (s.available ++ new)) ≡ true
    in_pages = ground (
      arith,
      made,
      owns-append first s.all (s.available ++ new),
      owns-append first s.available new,
    )

    in_keepers : owns first (s.all ++ new) ≡ true
    in_keepers = ground (arith, made, owns-append first s.all new)

    in_queue : owns first (s.available ++ (s.all ++ new)) ≡ true
    in_queue = ground (arith, in_keepers, owns-append first s.available (s.all ++ new))

-- Distinct clients that are not deleted yet can be destroyed.
destroy_all-some :
    (n : ℕ) (ps : List Ptr) (h : Heap)
    → Nodup ps
    → ((p : Ptr) → Mem p ps → IsBelow n p)
    → ((c : ℕ) → owns c ps ≡ true → has c h.destroyed ≡ false)
    → (h' : Heap) × (destroy_all ps h ≡ some h')
unfolding destroy_all
destroy_all-some n [] h d m a = (h, refl)
destroy_all-some n (none ∷ ps) h d m a = absurd (m none mem-cons_self)
destroy_all-some n (some c ∷ ps) h d m a =
    rw (a c (ground (arith, ==_refl c)))
      (destroy_all-some n ps _ (Nodup-cons.0 d).1 (λ p k. m p (mem-cons_of_mem (some c) k)) rest)
  where
    rest : (x : ℕ) → owns x ps ≡ true → has x (c ∷ h.destroyed) ≡ false
    rest x o = elim (Bool-cases (x == c)) [
      | inl same ↦ absurd ((Nodup-cons.0 d).0 (rw (sym ((==_iff x c).0 same)) (Mem-owns x ps o)))
      | inr other ↦ ground (arith, a x)
    ]

destroy_all-append :
    (ps qs : List Ptr) (h : Heap) → destroy_all (ps ++ qs) h ≡ (destroy_all ps h >>= destroy_all qs)
unfolding destroy_all
destroy_all-append [] qs h = refl
destroy_all-append (none ∷ ps) qs h = destroy_all-append ps qs h
destroy_all-append (some c ∷ ps) qs h =
    ground (arith, destroy_all-append ps qs (record h { destroyed = c ∷ h.destroyed }))

emptied : Side → Heap → Side
emptied s h = record s { heap = h; available = []; all = [] }

shutdown_side-owned :
    (s : Side) → shutdown_side s ≡ (destroy_all (owned s) s.heap >>= λ h. some (emptied s h))
unfolding shutdown_side emptied
shutdown_side-owned s =
    rw destroy_all-append (ground (arith, destroy_all-append s.available s.all s.heap))

-- Where no client is owned twice, the shutdown succeeds, empties both lists, and deletes exactly
-- the clients that were owned.
pub shutdown_side-IsOwned :
    (s : Side)
    → IsOwned s
    → (s' : Side) × (shutdown_side s ≡ some s')
      × (s'.available ≡ [])
      × (s'.all ≡ [])
      × ((c : ℕ) → has c s'.heap.destroyed ≡ owns c (owned s))
unfolding emptied
shutdown_side-IsOwned s v =
    let (h, e) = deletes in
    (
      emptied s h,
      rw (shutdown_side-owned s, e, ◌>>=◌),
      refl,
      refl,
      λ c. destroy_all-has c (owned s) s.heap h e ∙ ap (λ ds. has c ds || owns c (owned s)) v.alive,
    )
  where
    deletes : (h : Heap) × (destroy_all (owned s) s.heap ≡ some h)
    deletes =
        destroy_all-some s.heap.next (owned s) s.heap v.distinct v.made
          (λ c _. ap (λ ds. has c ds) v.alive)
