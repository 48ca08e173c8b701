-- ===== src/Pool/Warm.antt =====
-- src/connection_pool.cc, `warm_connections`: the loops over both sides, and what they amount to.
use mariadb_serverless_engin.Base.{
  ℕ, zero, suc, ◌≡◌, sym, ◌∙◌, Bool, List, [], ◌∷◌, ◌++◌, append-nil, append_assoc, none, some,
  arith, ◌+◌, if◌then◌else◌,
}
use mariadb_serverless_engin.Pool.{Ptr, Heap, Side, create_connection}

-- `while (!from.empty()) { to.push(std::move(from.front())); from.pop(); }`, and the `for` loops
-- that push every entry of a list.
unfoldable pub push_all : List Ptr → List Ptr → List Ptr
push_all [] to = to
push_all (p ∷ from) to = push_all from (to ++ p ∷ [])

push_new : Ptr → List Ptr → List Ptr
push_new none to = to
push_new (some c) to = to ++ some c ∷ []

-- The creating loop, with `n` rounds left: a failed creation is reported and passed over.
unfoldable pub create_into : (ℕ → Bool) → ℕ → List Ptr → Heap → List Ptr × Heap
unfolding push_new
create_into constructs zero to h = (to, h)
create_into constructs (suc n) to h =
    let (connection, h') = create_connection constructs h in
    create_into constructs n (push_new connection to) h'

-- The pageserver half. The new connections go to the queue, the queue to the managed list, all of
-- that to the queue and back, and at last the queue gets a second `unique_ptr` to each client.
-- The pointers that the third loop releases are null, so the `clear` after it deletes nothing.
unfoldable pub warm_pageserver_connections : (ℕ → Bool) → Side → Side
warm_pageserver_connections constructs s =
    let (queued, h) = create_into constructs s.min_connections s.available s.heap in
    let moved = push_all queued s.all in
    let added_back = push_all moved [] in
    let rebuilt = push_all added_back [] in
    record s { heap = h; all = rebuilt; available = push_all rebuilt [] }

-- The safekeeper half: the new connections go to the managed list, and the queue gets a second
-- `unique_ptr` to each client of that list.
unfoldable pub warm_safekeeper_connections : (ℕ → Bool) → Side → Side
warm_safekeeper_connections constructs s =
    let (managed, h) = create_into constructs s.min_connections s.all s.heap in
    record s { heap = h; all = managed; available = push_all managed s.available }

-- The clients numbered `i`, …, `i + n - 1` whose construction returns.
unfoldable pub created : (ℕ → Bool) → ℕ → ℕ → List Ptr
created constructs zero i = []
created constructs (suc n) i =
    let rest = created constructs n (suc i) in if constructs i then some i ∷ rest else rest

pub push_all_lem : (from to : List Ptr) → push_all from to ≡ to ++ from
unfolding push_all
push_all_lem [] to = sym (append-nil to)
push_all_lem (p ∷ from) to = push_all_lem from (to ++ p ∷ []) ∙ append_assoc to (p ∷ []) from

pub create_into-created :
    (constructs : ℕ → Bool) (n : ℕ) (to : List Ptr) (h : Heap)
    → create_into constructs n to h
      ≡ (to ++ created constructs n h.next, record h { next = h.next + n })
unfolding create_into created create_connection push_new
create_into-created constructs zero to h = ground (arith, append-nil to)
create_into-created constructs (suc n) to h = ground (
  arith,
  create_into-created constructs n (to ++ some h.next ∷ []) (record h { next = suc h.next }),
  create_into-created constructs n to (record h { next = suc h.next }),
  append_assoc to (some h.next ∷ []) (created constructs n (suc h.next)),
)

-- Warming the pageserver side leaves the managed list and the queue equal: the clients managed
-- before, those queued before, and the new ones, in this order, each owned by both.
pub warm_pageserver_connections-both :
    (constructs : ℕ → Bool) (s : Side)
    → let managed = s.all ++ (s.available ++ created constructs s.min_connections s.heap.next) in
      warm_pageserver_connections constructs s ≡ record s {
        heap = record (s.heap) { next = s.heap.next + s.min_connections };
        all = managed;
        available = managed;
      }
unfolding warm_pageserver_connections
warm_pageserver_connections-both constructs s =
    rw create_into-created (simp (push_all_lem, append-nil))

-- Warming the safekeeper side adds the new clients to the managed list, and appends that whole list
-- to the queue.
pub warm_safekeeper_connections-both :
    (constructs : ℕ → Bool) (s : Side)
    → let managed = s.all ++ created constructs s.min_connections s.heap.next in
      warm_safekeeper_connections constructs s ≡ record s {
        heap = record (s.heap) { next = s.heap.next + s.min_connections };
        all = managed;
        available = s.available ++ managed;
      }
unfolding warm_safekeeper_connections
warm_safekeeper_connections-both constructs s =
    rw create_into-created (simp (push_all_lem, append-nil))
