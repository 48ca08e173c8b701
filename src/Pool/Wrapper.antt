-- ===== src/Pool/Wrapper.antt =====
-- src/connection_pool.h, `PooledPageserverConnection` and `PooledSafekeeperConnection`: the wrapper
-- that returns its connection when it goes out of scope. Both classes have the same text.
use mariadb_serverless_engin.Base.{
  ℕ, ◌≡◌, refl, Bool, true, false, not, ◌&&◌, List, [], ◌∷◌, none, some, if◌then◌else◌,
}
use mariadb_serverless_engin.Pool.{Ptr, Side, return_connection}

-- `has_pool` says that the pool's pointer is not null.
pub record Wrapper : Type 0 where
  pub client : Ptr
  pub has_pool : Bool
  pub returned : Bool

unfoldable pub wrap : Ptr → Bool → Wrapper
wrap client has_pool = record { client = client; has_pool = has_pool; returned = false }

abbrev is_set : Ptr → Bool
is_set none = false
is_set (some c) = true

-- `!returned && client && pool`.
unfoldable pub holds : Wrapper → Bool
holds w = not w.returned && (is_set w.client && w.has_pool)

-- The destructor.
unfoldable pub destruct : Wrapper → Side → Side
unfolding holds
destruct w s = if holds w then return_connection w.client s else s

-- The move constructor: the new wrapper, and what is left in the old one.
unfoldable pub move : Wrapper → Wrapper × Wrapper
move other = (other, record other { client = none; returned = true })

unfoldable pub return_early : Wrapper → Side → Wrapper × Side
unfolding holds
return_early w s =
    if holds w then (record w { returned = true }, return_connection w.client s) else (w, s)

-- What a caller may do with a wrapper before its scope ends.
pub data Use : Type 0 where
  early moved : Use

-- A scope: the uses in turn, then the destructor of the wrapper, and of each that was moved from.
unfoldable pub scope : List Use → Wrapper → Side → Side
scope [] w s = destruct w s
scope (early ∷ uses) w s = let (w', s') = return_early w s in scope uses w' s'
scope (moved ∷ uses) w s = let (new, old) = move w in destruct old (scope uses new s)

scope-returned :
    (uses : List Use) (c : ℕ) (s : Side)
    → scope uses (record { client = some c; has_pool = true; returned = true }) s ≡ s
unfolding scope destruct return_early move
scope-returned [] c s = refl
scope-returned (early ∷ uses) c s = scope-returned uses c s
scope-returned (moved ∷ uses) c s = scope-returned uses c s

-- However often a wrapper of a connection is returned early and moved before its scope ends, the
-- pool is left as by a single return of the connection.
pub scope-wrap :
    (uses : List Use) (c : ℕ) (s : Side)
    → scope uses (wrap (some c) true) s ≡ return_connection (some c) s
unfolding scope destruct return_early move wrap
scope-wrap [] c s = refl
scope-wrap (early ∷ uses) c s = scope-returned uses c (return_connection (some c) s)
scope-wrap (moved ∷ uses) c s = scope-wrap uses c s
