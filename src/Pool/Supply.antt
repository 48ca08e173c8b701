-- ===== src/Pool/Supply.antt =====
-- src/connection_pool.cc: one caller at a time, who returns each connection before the next call.
use mariadb_serverless_engin.Base.{
  ℕ, zero, suc, ◌+◌, ◌≤◌, ◌<◌, ◌≡◌, refl, ap, ◌⊎◌, inl, inr, Bool, true, List, [], ◌∷◌, ◌++◌, none,
  some, arith, length, length-append, All, All-append, u64, ==_iff, ==_refl, subst, ltb,
  Option-cases,
}
use mariadb_serverless_engin.Pool.{
  Ptr, Side, get_begin, get_finish, get_timeout, get_connection, create_connection, adopt,
  find_erase, ptr_eq, return_connection,
}
use mariadb_serverless_engin.Pool.Drain.{IsClient}
use mariadb_serverless_engin.Pool.Warm.{
  created, warm_pageserver_connections, warm_pageserver_connections-both,
}
use mariadb_serverless_engin.Pool.Lending.{owners}
use mariadb_serverless_engin.Pool.Lending.Once.{owners-append, owners-find_erase}

-- The queue and the managed list hold clients, and there is room for one more, or each managed client
-- is in the queue.
pub record IsSupplied (s : Side) : Type 0 where
  pub queued : All IsClient s.available
  pub managed : All IsClient s.all
  pub positive : 0 < s.max_connections
  pub room :
      (length s.all < s.max_connections) ⊎ ((c : ℕ) → 0 < owners c s.all → 0 < owners c s.available)

find_erase-unknown : (c : ℕ) (ps : List Ptr) → find_erase (some c) ps ≡ none → owners c ps ≡ 0
unfolding find_erase ptr_eq
find_erase-unknown c [] e = refl
find_erase-unknown c (none ∷ ps) e = elim (Option-cases (find_erase (some c) ps)) [
  | inl unknown ↦ ground (arith, find_erase-unknown c ps unknown)
  | inr ((it, rest), known) ↦ ground arith
]
find_erase-unknown c (some x ∷ ps) e = elim (Option-cases (find_erase (some c) ps)) [
  | inl unknown ↦ ground (arith, find_erase-unknown c ps unknown, ==_iff c x, ==_iff x c)
  | inr ((it, rest), known) ↦ ground arith
]

find_erase-rest :
    (c : ℕ) (ps : List Ptr) (it : Ptr) (rest : List Ptr)
    → find_erase (some c) ps ≡ some (it, rest)
    → All IsClient ps
    → (length ps ≡ suc (length rest)) × All IsClient rest
unfolding find_erase ptr_eq
find_erase-rest c [] it rest e h = cc
find_erase-rest c (none ∷ ps) it rest e h = absurd h.0
find_erase-rest c (some x ∷ ps) it rest e h = elim (Option-cases (find_erase (some c) ps)) [
  | inl unknown ↦ ground arith
  | inr ((q, kept), known) ↦ ground (arith, find_erase-rest c ps q kept known h.1)
]

-- The same while a caller holds client `c`, up to its return.
pub record IsHanding (c : ℕ) (s : Side) : Type 0 where
  pub queued : All IsClient s.available
  pub managed : All IsClient s.all
  pub positive : 0 < s.max_connections
  pub room :
      (length s.all < s.max_connections)
      ⊎ (((length s.all ≤ s.max_connections) × (0 < owners c s.all))
          ⊎ ((d : ℕ) → 0 < owners d s.all → 0 < owners d (some c ∷ s.available)))

-- Where every managed client is queued, and none is, none is managed.
managed-none :
    (ps : List Ptr)
    → All IsClient ps
    → ((c : ℕ) → 0 < owners c ps → 0 < owners c [])
    → length ps ≡ 0
managed-none [] h k = refl
managed-none (none ∷ ps) h k = absurd h.0
managed-none (some c ∷ ps) h k = absurd (ground (arith, k c, ==_refl c))

pub return-IsSupplied :
    (c : ℕ) (s : Side) → IsHanding c s → IsSupplied (return_connection (some c) s)
unfolding return_connection
return-IsSupplied c s v = elim (Option-cases (find_erase (some c) s.all)) [
  | inl unknown ↦
      let gone = find_erase-unknown c s.all unknown in
      rw (unknown, return_connection)
        (record {
          queued = v.queued;
          managed = v.managed;
          positive = v.positive;
          room = elim v.room [
            | inl room ↦ inl room
            | inr (inl (full, held)) ↦ absurd (omega arith)
            | inr (inr others) ↦ inr (λ d h. ground (arith, others d, gone, ==_iff c d))
          ];
        })
  | inr ((it, rest), known) ↦
      let (long, clients) = find_erase-rest c s.all it rest known v.managed in
      let same = (owners-find_erase c c s.all it rest known).0 in
      rw (known, return_connection, same)
        (record {
          queued = All-append IsClient s.available (some c ∷ []) v.queued (tt, tt);
          managed = clients;
          positive = v.positive;
          room = elim v.room [
            | inl room ↦ inl (omega arith)
            | inr (inl (full, held)) ↦ inl (omega arith)
            | inr (inr others) ↦ inr (λ d h. omega (
              arith,
              others d (omega (arith, (owners-find_erase d c s.all it rest known).1)),
              owners-append d s.available (some c ∷ []),
            ))
          ];
        })
]

-- While a client can be constructed, a side that is supplied gives one.
module _ (constructs : ℕ → Bool) (returns_always : (n : ℕ) → constructs n ≡ true) where
  finish-IsHanding :
      (s : Side) (queue : List Ptr)
      → s.available ≡ queue
      → IsSupplied s
      → (c : ℕ) × (s' : Side) × (get_finish constructs s ≡ (some c, s')) × IsHanding c s'
  unfolding get_finish get_timeout create_connection adopt
  finish-IsHanding s [] e v =
      let c = s.heap.next in
      let free : length s.all < s.max_connections = elim v.room [
        | inl room ↦ room
        | inr queued ↦ omega (
          arith,
          managed-none s.all v.managed
              (subst (λ q. (d : ℕ) → 0 < owners d s.all → 0 < owners d q) e queued),
          v.positive,
        )
      ] in
      let less : ltb (length s.all) s.max_connections ≡ true = ground arith in
      (
        c,
        record s { heap = record (s.heap) { next = suc c }; all = s.all ++ some c ∷ [] },
        rw (e, get_finish, less, get_timeout, returns_always c, create_connection)
            (ap
              (λ q. (
                some c,
                record s {
                  heap = record (s.heap) { next = suc c };
                  available = q;
                  all = s.all ++ some c ∷ [];
                },
              ))
              e),
        record {
          queued = v.queued;
          managed = All-append IsClient s.all (some c ∷ []) v.managed (tt, tt);
          positive = v.positive;
          room = inr (
              inl (
                omega (arith, length-append s.all (some c ∷ [])),
                ground (arith, owners-append c s.all (some c ∷ []), ==_refl c),
              ));
        },
      )
  finish-IsHanding s (none ∷ rest) e v = absurd (subst (All IsClient) e v.queued).0
  finish-IsHanding s (some c ∷ rest) e v = (
    c,
    record s { available = rest; cache_hits = u64 (s.cache_hits + 1) },
    rw (e, get_finish),
    record {
      queued = (subst (All IsClient) e v.queued).1;
      managed = v.managed;
      positive = v.positive;
      room = elim v.room [
        | inl room ↦ inl room
        | inr queued ↦ inr (inr (λ d h. subst (λ q. 0 < owners d q) e (queued d h)))
      ];
    },
  )

  -- A call by the only caller, whose connection is returned before the next: it gets a connection.
  pub get-IsHanding :
      (others : Side → Side) (s : Side)
      → ((t : Side) → others t ≡ t)
      → IsSupplied s
      → (c : ℕ) × (s' : Side) × (get_connection constructs others s ≡ (some c, s')) × IsHanding c s'
  unfolding get_connection get_begin
  get-IsHanding others s alone v =
      let asked = get_begin s in
      let (c, s', got, handing) =
        finish-IsHanding asked asked.available refl (record {
          queued = v.queued;
          managed = v.managed;
          positive = v.positive;
          room = v.room;
        }) in
      (c, s', rw (alone asked, got), handing)

created-clients : (constructs : ℕ → Bool) (n i : ℕ) → All IsClient (created constructs n i)
unfolding created
created-clients constructs zero i = tt
created-clients constructs (suc n) i = ground (arith, created-clients constructs n (suc i))

-- A warm-up puts each managed client into the queue, whichever constructions return.
pub warm-IsSupplied :
    (constructs : ℕ → Bool) (s : Side)
    → IsSupplied s
    → IsSupplied (warm_pageserver_connections constructs s)
warm-IsSupplied constructs s v =
    let new = created constructs s.min_connections s.heap.next in
    let clients : All IsClient (s.all ++ (s.available ++ new)) =
      All-append IsClient s.all (s.available ++ new) v.managed (
        All-append IsClient s.available new v.queued
          (created-clients constructs s.min_connections s.heap.next)) in
    rw (warm_pageserver_connections-both constructs s)
      (record { queued = clients; managed = clients; positive = v.positive; room = inr (λ c h. h) })
