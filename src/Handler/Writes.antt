-- ===== src/Handler/Writes.antt =====
-- src/ha_serverless.cc, `write_page_to_safekeeper`, with clients that cannot connect.
use mariadb_serverless_engin.Base.{
  ℕ, suc, ◌+◌, ◌≡◌, refl, sym, inl, inr, true, false, List, [], ◌∷◌, Option, none, some, All, ◌>>=◌,
  Bool-cases, ◌==◌, length, ap, u64, arith, subst,
}
use mariadb_serverless_engin.Types.{PageId, TimelineId, WalRecord}
use mariadb_serverless_engin.Sockets.{Sockets, IsPosix, IsAddressChar}
use mariadb_serverless_engin.Pool.{Ptr}
use mariadb_serverless_engin.Pool.Wrapper.{wrap, destruct}
use mariadb_serverless_engin.ConnectionPool.{ConnectionPool, get_safekeeper_connection}
use mariadb_serverless_engin.SafekeeperClient.{Client}
use mariadb_serverless_engin.SafekeeperClient.Connection.{append-dotted}
use mariadb_serverless_engin.PageserverClient.{Curl}
use mariadb_serverless_engin.PageCache.{mariadb_page_size}
use mariadb_serverless_engin.Engine.{
  Engine, HaResult, ha_err_generic, client_error, count_call, count_latency,
}
use mariadb_serverless_engin.Handler.{Moment, is_ok, set_keeper}
use mariadb_serverless_engin.Handler.Creation.{IsNamed}
use mariadb_serverless_engin.Handler.Reading.{append_page, write_page_to_safekeeper}

-- A page that a caller writes, and the circumstances.
pub record PageWrite : Type 0 where
  pub moment : Moment
  pub page : PageId
  pub bytes : List ℕ

abbrev pub IsFailure : HaResult → Type 0
IsFailure result = is_ok result ≡ false

module _ (curl : Curl) (net : Sockets) where
  -- The writes in turn, with their results.
  unfoldable pub write_pages :
      TimelineId
      → List PageWrite
      → ℕ × Engine curl net
      → Option (List HaResult × ℕ × Engine curl net)
  write_pages t [] (lsn, e) = some ([], lsn, e)
  write_pages t (x ∷ xs) s =
      write_page_to_safekeeper curl net x.moment t x.page x.bytes s >>= λ (result, lsn', e').
      write_pages t xs (lsn', e') >>= λ (results, lsn'', e''). some (result ∷ results, lsn'', e'')

  -- There is a pool, and its safekeepers cannot connect.
  pub record IsCut (e : Engine curl net) : Type 0 where
    pub named : IsNamed curl net e
    pub pool : ConnectionPool
    pub there : e.pool ≡ some pool

  -- A write that fails, and does not mend the connections.
  pub record IsFailed (r : Option (HaResult × ℕ × Engine curl net)) : Type 0 where
    pub result : HaResult
    pub lsn : ℕ
    pub engine : Engine curl net
    pub returned : r ≡ some (result, lsn, engine)
    pub failed : is_ok result ≡ false
    pub cut : IsCut engine

  set_keeper-named :
      (n : ℕ) (c : Client) (keepers : ℕ → Client)
      → ¬ All IsAddressChar c.server_host
      → ((k : ℕ) → ¬ All IsAddressChar (keepers k).server_host)
      → (k : ℕ) → ¬ All IsAddressChar (set_keeper curl net n c keepers k).server_host
  unfolding set_keeper
  set_keeper-named n c keepers named others k = elim (Bool-cases (k == n)) [
    | inl same ↦ rw same named
    | inr other ↦ rw other (others k)
  ]

  module _ (posix : IsPosix net) (now : Moment) (t : TimelineId) (bytes : List ℕ) (lsn : ℕ) where
    append_page-IsFailed :
        (e : Engine curl net) (got : Ptr × ConnectionPool)
        → IsNamed curl net e
        → IsFailed (append_page curl net now t bytes (lsn, e) got)
    unfolding append_page set_keeper
    append_page-IsFailed e (none, pool) v = record {
      result = ha_err_generic;
      lsn = lsn;
      engine = record e { pool = some pool };
      returned = refl;
      failed = refl;
      cut = record { named = record { named = v.named; down = v.down }; pool = pool; there = refl };
    }
    append_page-IsFailed e (some n, pool) v =
        let r : WalRecord = record { lsn = lsn; length = mariadb_page_size; address = 0 } in
        let (c, w, done, still, host) =
          append-dotted net posix t r (λ address. bytes) (e.keepers n) e.net_world (v.named n)
            (v.down n) in
        let pool' = record pool { safekeeper = destruct (wrap (some n) true) pool.safekeeper } in
        record {
          result = client_error;
          lsn = u64 (lsn + 1);
          engine = record e {
            pool = some pool';
            keepers = set_keeper curl net n c e.keepers;
            net_world = w;
            perf_stats = count_latency now.latency e.perf_stats;
          };
          returned = rw (done, ◌>>=◌, append_page);
          failed = refl;
          cut = record {
            named = record {
              named =
                  set_keeper-named n c e.keepers
                    (subst (λ name. ¬ All IsAddressChar name) (sym host) (v.named n)) v.named;
              down = λ k. ground (arith, v.down k);
            };
            pool = pool';
            there = refl;
          };
        }

    write-IsFailed :
        (p : PageId) (e : Engine curl net)
        → IsCut e
        → IsFailed (write_page_to_safekeeper curl net now t p bytes (lsn, e))
    unfolding write_page_to_safekeeper
    write-IsFailed p e v =
        rw (v.there, ◌>>=◌)
          (append_page-IsFailed (record e { perf_stats = count_call e.perf_stats })
            (get_safekeeper_connection now.constructs now.other_keepers v.pool)
            (record { named = v.named.named; down = v.named.down }))

  -- Every write of a sequence has a defined result and fails, from whatever state without connections.
  pub write_pages-fails :
      (posix : IsPosix net) (t : TimelineId) (xs : List PageWrite) (lsn : ℕ) (e : Engine curl net)
      → IsCut e
      → (results : List HaResult) × (lsn' : ℕ) × (e' : Engine curl net) × (write_pages t xs (lsn, e)
          ≡ some (results, lsn', e'))
        × (length results ≡ length xs)
        × All IsFailure results
        × IsCut e'
  unfolding write_pages
  write_pages-fails posix t [] lsn e v = ([], lsn, e, refl, refl, tt, v)
  write_pages-fails posix t (x ∷ xs) lsn e v =
      let one = write-IsFailed posix x.moment t x.bytes lsn x.page e v in
      let (results, lsn', e', rest, long, failed, v') =
        write_pages-fails posix t xs one.lsn one.engine one.cut in
      (
        one.result ∷ results,
        lsn',
        e',
        rw (one.returned, ◌>>=◌, rest),
        ap suc long,
        (one.failed, failed),
        v',
      )
