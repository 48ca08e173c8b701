-- ===== src/Pool/Drain.antt =====
-- src/connection_pool.cc: what becomes of the two lists when connections are taken and returned,
-- one caller at a time (nobody else touches the side while a get waits).
use mariadb_serverless_engin.Base.{
  ℕ, zero, suc, ◌+◌, ◌≤◌, ◌<◌, ◌≡◌, refl, sym, ap, ◌∙◌, Bool, true, List, [], ◌∷◌, ◌++◌, append-nil,
  append_assoc, none, some, arith, length, drop, All, ==_refl,
}
use mariadb_serverless_engin.Pool.{Ptr, Side, get_connection, return_connection}

-- One client served: its connection is taken, and returned.
unfoldable pub round_trip : (ℕ → Bool) → Side → Side
round_trip constructs s =
    let (client, s') = get_connection constructs (λ t. t) s in return_connection client s'

unfoldable pub rounds : (ℕ → Bool) → ℕ → Side → Side
rounds constructs zero s = s
rounds constructs (suc n) s = rounds constructs n (round_trip constructs s)

abbrev pub IsClient : Ptr → Type 0
IsClient none = ⊥
IsClient (some c) = Unit

-- A queued connection that heads the managed list goes to the end of the queue, and is managed no
-- more.
round_trip-managed :
    (constructs : ℕ → Bool) (c : ℕ) (s : Side) {queue managed : List Ptr}
    → s.available ≡ some c ∷ queue
    → s.all ≡ some c ∷ managed
    → ((round_trip constructs s).available ≡ queue ++ some c ∷ [])
      × ((round_trip constructs s).all ≡ managed)
unfolding round_trip get_connection return_connection
round_trip-managed constructs c s a b = ground (arith, ==_refl c)

-- A queued connection that is not managed is gone after one use.
round_trip-unmanaged :
    (constructs : ℕ → Bool) (c : ℕ) (s : Side) {queue : List Ptr}
    → s.available ≡ some c ∷ queue
    → s.all ≡ []
    → ((round_trip constructs s).available ≡ queue) × ((round_trip constructs s).all ≡ [])
unfolding round_trip get_connection return_connection
round_trip-unmanaged constructs c s a b = ground arith

rounds-managed :
    (constructs : ℕ → Bool) (xs ys : List Ptr) (s : Side)
    → All IsClient xs
    → s.available ≡ xs ++ ys
    → s.all ≡ xs
    → ((rounds constructs (length xs) s).available ≡ ys ++ xs)
      × ((rounds constructs (length xs) s).all ≡ [])
unfolding rounds
rounds-managed constructs [] ys s k a b = (a ∙ sym (append-nil ys), b)
rounds-managed constructs (none ∷ xs) ys s k a b = absurd k.0
rounds-managed constructs (some c ∷ xs) ys s k a b =
    let (a', b') = round_trip-managed constructs c s a b in
    let (p, q) =
      rounds-managed constructs xs (ys ++ some c ∷ []) (round_trip constructs s) k.1
        (a' ∙ append_assoc xs ys (some c ∷ [])) b' in
    (p ∙ append_assoc ys (some c ∷ []) xs, q)

rounds-unmanaged :
    (constructs : ℕ → Bool) (n : ℕ) (xs : List Ptr) (s : Side)
    → All IsClient xs
    → n ≤ length xs
    → s.available ≡ xs
    → s.all ≡ []
    → ((rounds constructs n s).available ≡ drop n xs) × ((rounds constructs n s).all ≡ [])
unfolding rounds
rounds-unmanaged constructs zero xs s k h a b = (a, b)
rounds-unmanaged constructs (suc n) [] s k h a b = absurd (omega arith)
rounds-unmanaged constructs (suc n) (none ∷ xs) s k h a b = absurd k.0
rounds-unmanaged constructs (suc n) (some c ∷ xs) s k h a b =
    let (a', b') = round_trip-unmanaged constructs c s a b in
    rounds-unmanaged constructs n xs (round_trip constructs s) k.1 (omega arith) a' b'

rounds-add :
    (constructs : ℕ → Bool) (m n : ℕ) (s : Side)
    → rounds constructs (m + n) s ≡ rounds constructs n (rounds constructs m s)
unfolding rounds
rounds-add constructs zero n s =
    ap (λ k. rounds constructs k s) {x = zero + n} {y = n} (omega arith)
rounds-add constructs (suc m) n s =
    ap (λ k. rounds constructs k s) {x = suc m + n} {y = suc (m + n)} (omega arith)
    ∙ rounds-add constructs m n (round_trip constructs s)

-- Let the queue and the managed list of a side hold the same connections, k in number, as after a
-- warm-up. After k gets, each with its return, and n more with n at most k, one caller at a time,
-- the managed list is empty and the queue has lost its first n connections.
pub rounds-drop :
    (constructs : ℕ → Bool) (n : ℕ) (s : Side)
    → All IsClient s.all
    → s.available ≡ s.all
    → n ≤ length s.all
    → ((rounds constructs (length s.all + n) s).available ≡ drop n s.all)
      × ((rounds constructs (length s.all + n) s).all ≡ [])
rounds-drop constructs n s k e h =
    let (a, b) = rounds-managed constructs s.all [] s k (e ∙ sym (append-nil s.all)) refl in
    rw rounds-add (rounds-unmanaged constructs n s.all _ k h a b)

-- A caller that gets a connection, returns it, and gets it again.
unfoldable pub lend : (ℕ → Bool) → Side → Ptr × Side
unfolding round_trip
lend constructs s = get_connection constructs (λ t. t) (round_trip constructs s)

unfoldable pub lends : (ℕ → Bool) → ℕ → Side → List Ptr × Side
lends constructs zero s = ([], s)
lends constructs (suc n) s =
    let (client, s') = lend constructs s in
    let (clients, t) = lends constructs n s' in (client ∷ clients, t)

-- The clients numbered from `i` on.
abbrev pub numbered : ℕ → ℕ → List Ptr
numbered zero i = []
numbered (suc n) i = some i ∷ numbered n (suc i)

lend_lem :
    (constructs : ℕ → Bool) (s : Side)
    → ((i : ℕ) → constructs i ≡ true)
    → s.available ≡ []
    → s.all ≡ []
    → 0 < s.max_connections
    → let (client, t) = lend constructs s in
      (client ≡ some s.heap.next)
      × (t.available ≡ [])
      × (t.all ≡ [])
      × (t.heap.next ≡ suc s.heap.next)
      × (t.max_connections ≡ s.max_connections)
unfolding lend get_connection return_connection
lend_lem constructs s returns a b h = ground (arith, returns s.heap.next, ==_refl s.heap.next)

-- From a side with empty lists and a maximum of at least one, if every construction returns, `n`
-- callers, one after the other, get `n` different new connections, and both lists are empty after
-- that: the maximum does not bound the connections in use.
pub lends-numbered :
    (constructs : ℕ → Bool) (n : ℕ) (s : Side)
    → ((i : ℕ) → constructs i ≡ true)
    → s.available ≡ []
    → s.all ≡ []
    → 0 < s.max_connections
    → ((lends constructs n s).0 ≡ numbered n s.heap.next)
      × ((lends constructs n s).1.available ≡ [])
      × ((lends constructs n s).1.all ≡ [])
unfolding lends
lends-numbered constructs zero s returns a b h = (refl, a, b)
lends-numbered constructs (suc n) s returns a b h =
    let (c, a', b', k, m) = lend_lem constructs s returns a b h in
    let (p, q, r) = lends-numbered constructs n (lend constructs s).1 returns a' b' (omega arith) in
    (cons_lem c (p ∙ ap (numbered n) k), q, r)
  where
    cons_lem :
        {c d : Ptr} {cs ds : List Ptr} → c ≡ d → cs ≡ ds → ◌≡◌ {A = List Ptr} (c ∷ cs) (d ∷ ds)
    cons_lem p q = cc
