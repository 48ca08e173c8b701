-- ===== src/Handler/Creation.antt =====
-- src/ha_serverless.cc: what `create` can come to.
use mariadb_serverless_engin.Base.{
  ℕ, ◌≡◌, refl, false, List, [], Option, none, some, All, ◌>>=◌, inl, inr, Bool-cases, is_nat,
}
use mariadb_serverless_engin.Types.{TimelineId, WalRecord}
use mariadb_serverless_engin.ConnectionPool.{
  ConnectionPool, get_pageserver_connection, get_safekeeper_connection,
}
use mariadb_serverless_engin.Sockets.{Sockets, IsPosix, IsAddressChar}
use mariadb_serverless_engin.Timeline.{hash_string}
use mariadb_serverless_engin.Pool.{Ptr, Side}
use mariadb_serverless_engin.PageserverClient
use mariadb_serverless_engin.SafekeeperClient.Connection.{unreachable_by_name}
use mariadb_serverless_engin.PageserverClient.{Curl}
use mariadb_serverless_engin.Engine.{Engine, HaResult}
use mariadb_serverless_engin.Handler.{Moment, create, create_on_keeper, create_on_pageserver, is_ok}

module _ (curl : Curl) (net : Sockets) where
  -- The clients of the pool's safekeepers are for a named host, and not connected.
  pub record IsNamed (e : Engine curl net) : Type 0 where
    pub named : (n : ℕ) → ¬ All IsAddressChar (e.keepers n).server_host
    pub down : (n : ℕ) → (e.keepers n).connected ≡ false

  create_on_keeper-fails :
      (posix : IsPosix net) (t : TimelineId) (e : Engine curl net) (got : Ptr × ConnectionPool)
      → IsNamed e
      → (is_ok (create_on_keeper curl net t e got).0 ≡ false)
        × ((create_on_keeper curl net t e got).1.pool ≡ some got.1)
  unfolding create_on_keeper
  create_on_keeper-fails posix t e (none, pool) v = (refl, refl)
  create_on_keeper-fails posix t e (some n, pool) v =
      let r : WalRecord = record { lsn = 0; length = 0; address = 0 } in
      let (_, failed, _) =
        unreachable_by_name net posix t r (λ address. []) (e.keepers n) e.net_world (v.named n)
          (v.down n) in
      (rw failed, refl)

  -- The pageserver's side of the pool after a call.
  abbrev pub pageserver_side : Engine curl net → Option Side
  pageserver_side e = e.pool >>= λ pool. some pool.pageserver

  create_on_pageserver-fails :
      (posix : IsPosix net) (now : Moment) (t : TimelineId) (e : Engine curl net)
      (got : Ptr × ConnectionPool)
      → IsNamed e
      → (is_ok (create_on_pageserver curl net now t e got).0 ≡ false)
        × (pageserver_side (create_on_pageserver curl net now t e got).1 ≡ some got.1.pageserver)
  unfolding create_on_pageserver get_safekeeper_connection
  create_on_pageserver-fails posix now t e (none, pool) v = (refl, refl)
  create_on_pageserver-fails posix now t e (some n, pool) v =
      let (result, w) = PageserverClient.create_timeline curl t (e.pages n) e.curl_world in
      let e' = record e { pool = some pool; curl_world = w } in
      let (failed, left) =
        create_on_keeper-fails posix t e'
          (get_safekeeper_connection now.constructs now.other_keepers pool)
          (record { named = v.named; down = v.down }) in
      elim (Bool-cases (is_nat result 0)) [
        | inl made ↦ rw (made, create_on_pageserver) (failed, rw (left, ◌>>=◌))
        | inr not_made ↦ rw (not_made, create_on_pageserver) (refl, refl)
      ]

  -- Let `inet_pton` be as documented, and let the pool's safekeepers be clients for a named host,
  -- not connected. Then creating a table has a defined result and fails, whatever the servers
  -- answer, and leaves the pageserver side of the pool as taking the connection left it: the
  -- connection is not returned.
  pub create-fails :
      (posix : IsPosix net) (now : Moment) (name : List ℕ) (e : Engine curl net)
      (pool : ConnectionPool)
      → IsNamed e
      → e.pool ≡ some pool
      → (result : HaResult) × (e' : Engine curl net) × (create curl net now name e
          ≡ some (result, e'))
        × (is_ok result ≡ false)
        × (pageserver_side e'
            ≡ some (get_pageserver_connection now.constructs now.other_pages pool).1.pageserver)
  unfolding create
  create-fails posix now name e pool v there =
      let t : TimelineId = record { id = hash_string name } in
      let got = get_pageserver_connection now.constructs now.other_pages pool in
      let (failed, left) = create_on_pageserver-fails posix now t e got v in
      let answer = create_on_pageserver curl net now t e got in
      (answer.0, answer.1, rw (there, ◌>>=◌), failed, left)
