-- ===== src/Pool/Sharing.antt =====
-- src/connection_pool.cc: which connections a run of gets hands out, and what that means after two
-- warm-ups, which src/ha_serverless.cc makes when the plugin is loaded.
use mariadb_serverless_engin.Base.{
  ℕ, zero, suc, ◌+◌, ◌≤◌, ◌≡◌, refl, ap, ◌∙◌, Bool, List, [], ◌∷◌, ◌++◌, arith, length,
  length-append, take, drop,
}
use mariadb_serverless_engin.Pool.{Ptr, Side, get_connection}
use mariadb_serverless_engin.Pool.Warm.{
  created, warm_pageserver_connections, warm_pageserver_connections-both,
  warm_safekeeper_connections, warm_safekeeper_connections-both,
}

-- `n` gets in a row with no return between them: the results, and the side left.
unfoldable pub gets : (ℕ → Bool) → ℕ → Side → List Ptr × Side
gets constructs zero s = ([], s)
gets constructs (suc n) s =
    let (client, s') = get_connection constructs (λ t. t) s in
    let (clients, t) = gets constructs n s' in (client ∷ clients, t)

get_lem :
    (constructs : ℕ → Bool) (s : Side) {p : Ptr} {queue : List Ptr}
    → s.available ≡ p ∷ queue
    → let (client, t) = get_connection constructs (λ t. t) s in
      (client ≡ p) × (t.available ≡ queue) × (t.all ≡ s.all)
unfolding get_connection
get_lem constructs s e = ground arith

gets_queued :
    (constructs : ℕ → Bool) (n : ℕ) (s : Side) (queue : List Ptr)
    → s.available ≡ queue
    → n ≤ length queue
    → ((gets constructs n s).0 ≡ take n queue)
      × ((gets constructs n s).1.available ≡ drop n queue)
      × ((gets constructs n s).1.all ≡ s.all)
unfolding gets
gets_queued constructs zero s queue e h = (refl, e, refl)
gets_queued constructs (suc n) s [] e h = absurd (omega arith)
gets_queued constructs (suc n) s (p ∷ queue) e h =
    let (c, left, same) = get_lem constructs s e in
    let s' = (get_connection constructs (λ t. t) s).1 in
    let (cs, left', same') = gets_queued constructs n s' queue left (omega arith) in
    (cc (c, cs), left', same' ∙ same)

-- Where `n` connections are queued, `n` gets hand out the first `n` of the queue in its order,
-- take them off it, and leave the managed list alone.
pub gets-take :
    (constructs : ℕ → Bool) (n : ℕ) (s : Side)
    → n ≤ length s.available
    → ((gets constructs n s).0 ≡ take n s.available)
      × ((gets constructs n s).1.available ≡ drop n s.available)
      × ((gets constructs n s).1.all ≡ s.all)
gets-take constructs n s h = gets_queued constructs n s s.available refl h

take-append {ℓ} :
    {A : Type ℓ} (xs ys zs : List A) → take (length xs + length ys) (xs ++ (ys ++ zs)) ≡ xs ++ ys
take-append [] [] zs = refl
take-append [] (y ∷ ys) zs =
    ap (λ n. take n (y ∷ (ys ++ zs))) {x = 0 + suc (length ys)} {y = suc (0 + length ys)}
      (omega arith)
    ∙ ap (◌∷◌ y) (take-append [] ys zs)
take-append (x ∷ xs) ys zs =
    ap (λ n. take n (x ∷ (xs ++ (ys ++ zs)))) {x = suc (length xs) + length ys}
      {y = suc (length xs + length ys)} (omega arith)
    ∙ ap (◌∷◌ x) (take-append xs ys zs)

repeated :
    (constructs : ℕ → Bool) (xs zs : List Ptr) (s : Side)
    → s.available ≡ xs ++ (xs ++ zs)
    → (gets constructs (length xs + length xs) s).0 ≡ xs ++ xs
repeated constructs xs zs s e =
    (gets_queued constructs (length xs + length xs) s (xs ++ (xs ++ zs)) e fits).0
    ∙ take-append xs xs zs
  where
    fits : length xs + length xs ≤ length (xs ++ (xs ++ zs))
    fits = omega (arith, length-append xs (xs ++ zs), length-append xs zs)

-- After two warm-ups of a side with empty lists, of either kind, the k connections of the first
-- are queued twice: 2k gets with no return between them hand each of the k to two callers.
pub warm_twice-shared :
    (constructs : ℕ → Bool) (s : Side)
    → s.available ≡ []
    → s.all ≡ []
    → let new = created constructs s.min_connections s.heap.next in
      let warm_pages = warm_pageserver_connections constructs in
      let warm_keepers = warm_safekeeper_connections constructs in
      ((gets constructs (length new + length new) (warm_pages (warm_pages s))).0 ≡ new ++ new)
      × ((gets constructs (length new + length new) (warm_keepers (warm_keepers s))).0 ≡ new ++ new)
warm_twice-shared constructs s a b =
    (repeated constructs new newer _ pages, repeated constructs new newer _ keepers)
  where
    new : List Ptr
    new = created constructs s.min_connections s.heap.next

    newer : List Ptr
    newer = created constructs s.min_connections (s.heap.next + s.min_connections)

    pages :
        (warm_pageserver_connections constructs
          (warm_pageserver_connections constructs s)).available
        ≡ new ++ (new ++ newer)
    pages = simp (warm_pageserver_connections-both, a, b)

    keepers :
        (warm_safekeeper_connections constructs
          (warm_safekeeper_connections constructs s)).available
        ≡ new ++ (new ++ newer)
    keepers = simp (warm_safekeeper_connections-both, a, b)
