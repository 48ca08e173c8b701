-- ===== src/Pool/Lending.antt =====
-- src/connection_pool.cc: which connections the callers of a side hold, under any interleaving of
-- callers that return only what they hold, and of the health thread.
pub mod Once
use mariadb_serverless_engin.Base.{
  ℕ, zero, suc, ◌+◌, ◌≤◌, ◌<◌, ◌≡◌, refl, sym, ap, ◌∙◌, Bool, true, false, List, [], ◌∷◌, ◌++◌,
  Option, none, some, arith, has, length, ltb, if◌then◌else◌, ◌==◌, ==_iff, ==_refl, Bool-cases,
  Option-cases, inl, inr,
}
use mariadb_serverless_engin.Pool.{
  Ptr, Heap, Side, init, get_begin, get_finish, get_timeout, adopt, create_connection,
  return_connection, find_erase, ptr_eq,
}
use mariadb_serverless_engin.Pool.Growth.{scale_up}
use mariadb_serverless_engin.Pool.Warm.{
  created, warm_pageserver_connections, warm_safekeeper_connections,
  warm_pageserver_connections-both, warm_safekeeper_connections-both,
}
use mariadb_serverless_engin.Pool.Ownership.{owned, IsOwned, get_finish-IsOwned}
use mariadb_serverless_engin.Pool.Shutdown.{shutdown_side, shutdown_side-IsOwned, owns, owns-append}

-- How often a client is on a list.
abbrev pub times : ℕ → List ℕ → ℕ
times c [] = 0
times c (x ∷ xs) = (if x == c then 1 else 0) + times c xs

abbrev pub is_client : ℕ → Ptr → Bool
is_client c none = false
is_client c (some x) = x == c

abbrev pub owners : ℕ → List Ptr → ℕ
owners c [] = 0
owners c (p ∷ ps) = (if is_client c p then 1 else 0) + owners c ps

-- `lent` lists the connections that callers hold, `scaled` those that the scaling made.
pub record System : Type 0 where
  pub side : Side
  pub waiting : ℕ
  pub lent : List ℕ
  pub scaled : List ℕ

abbrev pub taken : Ptr → List ℕ → List ℕ
taken none lent = lent
taken (some c) lent = c ∷ lent

-- The list without one occurrence of a client.
abbrev pub given_back : ℕ → List ℕ → List ℕ
given_back c [] = []
given_back c (x ∷ xs) = if x == c then xs else x ∷ given_back c xs

-- The connection that the scaling is about to make, if its construction returns.
abbrev pub newcomer : (ℕ → Bool) → Side → Ptr
newcomer constructs s = (create_connection constructs s.heap).0

pub data Step (constructs : ℕ → Bool) (s : System) : System → Type 0 where
  begins : Step constructs s (record s { side = get_begin s.side; waiting = suc s.waiting })
  finishes :
      (n : ℕ)
      → s.waiting ≡ suc n
      → Step constructs s (record s {
        side = (get_finish constructs s.side).1;
        waiting = n;
        lent = taken (get_finish constructs s.side).0 s.lent;
      })
  returns :
      (c : ℕ)
      → 0 < times c s.lent
      → Step constructs s
          (record s { side = return_connection (some c) s.side; lent = given_back c s.lent })
  scales : Step constructs s (record s {
    side = scale_up constructs s.side;
    scaled = taken (newcomer constructs s.side) s.scaled;
  })

pub data Reach (constructs : ℕ → Bool) (s : System) : System → Type 0 where
  here : Reach constructs s s
  next : {t u : System} → Reach constructs s t → Step constructs t u → Reach constructs s u

-- Whether the new side was warmed, as pageservers or as safekeepers are.
pub data Warmth : Type 0 where
  cold pageservers safekeepers : Warmth

unfoldable pub warmed : Warmth → (ℕ → Bool) → Side → Side
warmed cold constructs s = s
warmed pageservers constructs s = warm_pageserver_connections constructs s
warmed safekeepers constructs s = warm_safekeeper_connections constructs s

unfoldable pub start : Warmth → (ℕ → Bool) → ℕ → ℕ → System
start w constructs min max = record {
  side = warmed w constructs (init (record { next = 0; destroyed = [] }) min max);
  waiting = 0;
  lent = [];
  scaled = [];
}
