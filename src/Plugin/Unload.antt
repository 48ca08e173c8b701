-- ===== src/Plugin/Unload.antt =====
-- src/ha_serverless.cc, `serverless_done_func`, with a pool that owns no client twice: what is closed.
use mathlib.Core.List.{append_assoc}
use mariadb_serverless_engin.Base.{
  ℕ, ◌+◌, ◌≡◌, refl, ap, ◌∙◌, false, List, [], ◌∷◌, ◌++◌, none, some, arith, ◌>>=◌, if◌then◌else◌,
  ℤ,
}
use mariadb_serverless_engin.Pool.{Ptr, Side}
use mariadb_serverless_engin.Pool.Ownership.{owned, IsOwned}
use mariadb_serverless_engin.Pool.Shutdown.{shutdown_side, shutdown_side-IsOwned, destroy_all}
use mariadb_serverless_engin.ConnectionPool
use mariadb_serverless_engin.ConnectionPool.{ConnectionPool, shutdown}
use mariadb_serverless_engin.Sockets.{Sockets}
use mariadb_serverless_engin.SafekeeperClient.{Client, close_connection}
use mariadb_serverless_engin.SafekeeperClient.Connection.{IsLinked}
use mariadb_serverless_engin.SafekeeperClient.Worker.{request_shutdown, destruct}
use mariadb_serverless_engin.SafekeeperClient.Descriptors.{watched, ledger, int_eq_refl}
use mariadb_serverless_engin.PageserverClient
use mariadb_serverless_engin.PageserverClient.{Curl, PageserverClient}
use mariadb_serverless_engin.Engine.{Engine}
use mariadb_serverless_engin.Plugin.{
  delete_pages, delete_keepers, delete_legacy, serverless_done_func,
}

-- The same transfers over a world that counts the handles that are cleaned up.
abbrev pub counted : Curl → Curl
counted curl = record {
  World = curl.World × ℕ;
  perform = λ url w.
      let (succeeds, pieces, response_code, w') = curl.perform url w.0 in
      (succeeds, pieces, response_code, (w', w.1));
  cleanup = λ w. (curl.cleanup w.0, w.1 + 1);
}

-- The descriptors of the clients behind pointers, in order.
abbrev pub ledgers : List Ptr → (ℕ → Client) → List ℤ
ledgers [] keepers = []
ledgers (none ∷ ps) keepers = ledgers ps keepers
ledgers (some n ∷ ps) keepers = ledger (keepers n) ++ ledgers ps keepers

-- How many of the clients behind pointers have a handle.
abbrev pub handles : List Ptr → (ℕ → PageserverClient) → ℕ
handles [] pages = 0
handles (none ∷ ps) pages = handles ps pages
handles (some n ∷ ps) pages = (if (pages n).has_handle then 1 else 0) + handles ps pages

destruct-ledger :
    (net : Sockets) (c : Client) (w : net.World) (rest : List ℤ)
    → IsLinked c
    → (destruct (watched net) (request_shutdown c) (w, ledger c ++ rest)).2.1 ≡ rest
unfolding destruct close_connection request_shutdown
destruct-ledger net c w rest linked = ground (arith, int_eq_refl c.socket_fd)

delete_keepers-ledgers :
    (curl : Curl) (net : Sockets) (ps : List Ptr) (keepers : ℕ → Client) (w : net.World × List ℤ)
    (rest : List ℤ)
    → ((n : ℕ) → IsLinked (keepers n))
    → w.1 ≡ ledgers ps keepers ++ rest
    → (delete_keepers curl (watched net) ps keepers w).1 ≡ rest
unfolding delete_keepers
delete_keepers-ledgers curl net [] keepers w rest linked e = e
delete_keepers-ledgers curl net (none ∷ ps) keepers w rest linked e =
    delete_keepers-ledgers curl net ps keepers w rest linked e
delete_keepers-ledgers curl net (some n ∷ ps) keepers w rest linked e =
    delete_keepers-ledgers curl net ps keepers _ rest linked (
      ap (λ fds. (destruct (watched net) (request_shutdown (keepers n)) (w.0, fds)).2.1)
        (e ∙ append_assoc (ledger (keepers n)) (ledgers ps keepers) rest)
      ∙ destruct-ledger net (keepers n) w.0 (ledgers ps keepers ++ rest) (linked n))

delete_pages-handles :
    (curl : Curl) (net : Sockets) (ps : List Ptr) (pages : ℕ → PageserverClient)
    (w : curl.World × ℕ)
    → (delete_pages (counted curl) net ps pages w).1 ≡ w.1 + handles ps pages
unfolding delete_pages PageserverClient.destruct
delete_pages-handles curl net [] pages w = omega arith
delete_pages-handles curl net (none ∷ ps) pages w = delete_pages-handles curl net ps pages w
delete_pages-handles curl net (some n ∷ ps) pages w = ground (
  arith,
  delete_pages-handles curl net ps pages (PageserverClient.destruct (counted curl) (pages n) w),
)

shutdown_side-empty : (s : Side) → s.available ≡ [] → s.all ≡ [] → shutdown_side s ≡ some s
unfolding shutdown_side destroy_all
shutdown_side-empty s a b = ground (arith, a, b)

-- Once shut down, a pool can be shut down again.
shutdown_twice :
    (pool : ConnectionPool)
    → IsOwned pool.pageserver
    → IsOwned pool.safekeeper
    → (gone : ConnectionPool) × (shutdown pool ≡ some gone)
      × (ConnectionPool.destruct gone ≡ some gone)
unfolding shutdown ConnectionPool.destruct
shutdown_twice pool v k =
    let (s, done, a, b, _) = shutdown_side-IsOwned pool.pageserver v in
    let (s', done', a', b', _) = shutdown_side-IsOwned pool.safekeeper k in
    (
      record pool {
        pageserver = s;
        safekeeper = s';
        health_check_running = false;
        thread_joinable = false;
      },
      rw (done, ◌>>=◌, done'),
      rw (shutdown_side-empty s a b, ◌>>=◌, shutdown_side-empty s' a' b'),
    )

module _ (curl : Curl) (net : Sockets) where
  -- Let the two sides of the pool own no client twice, let each safekeeper client be connected exactly
  -- if it holds a descriptor, and let the descriptors that are open be, in this order, those of the
  -- pool's safekeeper clients, the legacy client's, and others. Then the unloading has a defined
  -- result, closes exactly the first two and leaves the others open, cleans up one handle for each of
  -- the pool's pageserver clients and the legacy one that has a handle, and leaves no pool and no
  -- legacy client.
  pub done-closes :
      (e : Engine (counted curl) (watched net)) (pool : ConnectionPool) (client : PageserverClient)
      (keeper : Client) (others : List ℤ)
      → e.pool ≡ some pool
      → IsOwned pool.pageserver
      → IsOwned pool.safekeeper
      → e.legacy_pages ≡ some client
      → e.legacy_keeper ≡ some keeper
      → IsLinked keeper
      → ((n : ℕ) → IsLinked (e.keepers n))
      → e.net_world.1 ≡ ledgers (owned pool.safekeeper) e.keepers ++ (ledger keeper ++ others)
      → (e' : Engine (counted curl) (watched net)) × (serverless_done_func
            (counted curl)
            (watched net)
            e
          ≡ some e')
        × (e'.net_world.1 ≡ others)
        × (e'.curl_world.1
            ≡ e.curl_world.1
              + (handles (owned pool.pageserver) e.pages + (if client.has_handle then 1 else 0)))
        × (e'.pool ≡ none)
        × (e'.legacy_pages ≡ none)
        × (e'.legacy_keeper ≡ none)
  unfolding serverless_done_func delete_legacy PageserverClient.destruct
  done-closes e pool client keeper others there v k pages_there keeper_there linked all_linked
        opened =
      let (gone, emptied, again) = shutdown_twice pool v k in
      let w =
        delete_keepers (counted curl) (watched net) (owned pool.safekeeper) e.keepers e.net_world in
      let closed : w.1 ≡ ledger keeper ++ others =
        delete_keepers-ledgers (counted curl) net (owned pool.safekeeper) e.keepers e.net_world
          (ledger keeper ++ others) all_linked opened in
      let cleaned =
        delete_pages-handles curl (watched net) (owned pool.pageserver) e.pages e.curl_world in
      (
        delete_legacy (counted curl) (watched net) (record e {
          pool = none;
          curl_world =
              delete_pages (counted curl) (watched net) (owned pool.pageserver) e.pages
                e.curl_world;
          net_world = w;
        }),
        rw (there, serverless_done_func, emptied, ◌>>=◌, again),
        rw keeper_there (
            ap (λ fds. (destruct (watched net) (request_shutdown keeper) (w.0, fds)).2.1) closed
            ∙ destruct-ledger net keeper w.0 others linked),
        rw pages_there (ground (arith, cleaned)),
        refl,
        refl,
        refl,
      )
