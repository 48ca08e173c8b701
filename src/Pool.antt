-- ===== src/Pool.antt =====
-- src/connection_pool.h and src/connection_pool.cc: one side of `ConnectionPool` (the pageserver
-- side and the safekeeper side keep the same fields and, but for warm-up, run the same code).
pub mod Ownership
pub mod Warm
pub mod Sharing
pub mod Wrapper
pub mod Growth
pub mod Traces
pub mod Lending
pub mod Supply
pub mod Drain
pub mod Shutdown
use mariadb_serverless_engin.Base.{
  ℕ, zero, suc, ◌+◌, ◌*◌, Bool, true, false, not, ◌&&◌, List, [], ◌∷◌, ◌++◌, Option, none, some,
  length, has, ltb, ◌==◌, if◌then◌else◌, u64,
}

-- A raw pointer to a client, or a `unique_ptr`: `none` is null, and a client is known by its number.
abbrev pub Ptr : Type 0
Ptr = Option ℕ

-- The clients: `next` numbers the constructions attempted, `destroyed` lists those deleted.
pub record Heap : Type 0 where
  pub next : ℕ
  pub destroyed : List ℕ

pub record Side : Type 0 where
  pub heap : Heap
  pub available : List Ptr
  pub all : List Ptr
  pub max_connections : ℕ
  pub min_connections : ℕ
  pub requests : ℕ
  pub cache_hits : ℕ

-- The constructor of `ConnectionPool`; `reserve` changes no contents.
unfoldable pub init : Heap → ℕ → ℕ → Side
init h min max = record {
  heap = h;
  available = [];
  all = [];
  max_connections = max;
  min_connections = min;
  requests = 0;
  cache_hits = 0;
}

-- `delete`: a null pointer is left alone, and a second delete of one client has no defined result.
unfoldable pub destroy : Ptr → Heap → Option Heap
destroy none h = some h
destroy (some c) h =
    if has c h.destroyed then none else some (record h { destroyed = c ∷ h.destroyed })

-- The placeholder check: any client that is there is healthy.
unfoldable pub is_connection_healthy : Ptr → Bool
is_connection_healthy none = false
is_connection_healthy (some c) = true

-- `new` for the n-th construction; `none` is the exception that it throws.
unfoldable pub construct : (ℕ → Bool) → ℕ → Option ℕ
construct constructs n = if constructs n then some n else none

-- `constructs n` says whether the n-th construction returns. An unhealthy client would be deleted
-- on the way out; it is new, so that deletion is its first.
unfoldable pub create_connection : (ℕ → Bool) → Heap → Ptr × Heap
unfolding construct is_connection_healthy
create_connection constructs h = elim (construct constructs h.next) [
  | none ↦ (none, record h { next = suc h.next })
  | some c ↦
      if is_connection_healthy (some c)
      then (some c, record h { next = suc h.next })
      else (none, record h { next = suc h.next; destroyed = c ∷ h.destroyed })
]

-- `push_back` of a new connection; nothing is added where none came.
unfoldable pub adopt : Side → Ptr × Heap → Ptr × Side
adopt s (none, h) = (none, record s { heap = h })
adopt s (some c, h) = (some c, record s { heap = h; all = s.all ++ some c ∷ [] })

-- The timeout branch of a get: create a connection, if fewer than the maximum are managed.
unfoldable pub get_timeout : (ℕ → Bool) → Side → Ptr × Side
unfolding create_connection adopt
get_timeout constructs s =
    if ltb (length s.all) s.max_connections
    then adopt s (create_connection constructs s.heap)
    else (none, s)

-- A get up to its wait.
unfoldable pub get_begin : Side → Side
get_begin s = record s { requests = u64 (s.requests + 1) }

-- A get from the end of its wait on, under the lock again: the wait was fulfilled exactly if a
-- connection is available then.
unfoldable pub get_finish : (ℕ → Bool) → Side → Ptr × Side
unfolding get_timeout
get_finish constructs s = elim s.available [
  | [] ↦ get_timeout constructs s
  | connection ∷ rest ↦
      (connection, record s { available = rest; cache_hits = u64 (s.cache_hits + 1) })
]

-- The whole call; `others` is what other threads do to the side while this one waits.
unfoldable pub get_connection : (ℕ → Bool) → (Side → Side) → Side → Ptr × Side
unfolding get_begin get_finish
get_connection constructs others s = get_finish constructs (others (get_begin s))

unfoldable pub ptr_eq : Ptr → Ptr → Bool
ptr_eq none none = true
ptr_eq (some a) (some b) = a == b
ptr_eq _ _ = false

-- `find_if` and `erase`: the managed list without the first entry that is the client.
unfoldable pub find_erase : Ptr → List Ptr → Option (Ptr × List Ptr)
unfolding ptr_eq
find_erase client [] = none
find_erase client (p ∷ ps) =
    if ptr_eq p client
    then some (p, ps)
    else elim (find_erase client ps) [ none ↦ none | some (q, rest) ↦ some (q, p ∷ rest) ]

unfoldable pub return_connection : Ptr → Side → Side
unfolding find_erase
return_connection none s = s
return_connection (some c) s = elim (find_erase (some c) s.all) [
  | none ↦ s
  | some (it, rest) ↦ record s { available = s.available ++ it ∷ []; all = rest }
]
