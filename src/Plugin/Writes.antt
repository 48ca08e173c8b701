-- ===== src/Plugin/Writes.antt =====
-- src/ha_serverless.cc with src/safekeeper_client.cc: what becomes of the pages that the handlers of
-- a loaded plugin write.
use mariadb_serverless_engin.Base.{ℕ, ◌≡◌, List, some, All, length}
use mariadb_serverless_engin.Types.{TimelineId}
use mariadb_serverless_engin.Sockets.{Sockets, IsPosix}
use mariadb_serverless_engin.PageserverClient.{Curl}
use mariadb_serverless_engin.Engine.{Engine, HaResult}
use mariadb_serverless_engin.Handler.Writes.{PageWrite, write_pages, IsFailure, write_pages-fails}
use mariadb_serverless_engin.Plugin.{Load, serverless_init_func}
use mariadb_serverless_engin.Plugin.Loaded.{loaded-IsNamed}

module _ (curl : Curl) (net : Sockets) where
  -- Where `inet_pton` is as documented, loading the plugin has a defined result, and so has any
  -- sequence of page writes after it, on any timeline and from any sequence number; each of the writes
  -- fails, whatever the network does and whichever connections the pool gives.
  pub load_then_writes-fail :
      (posix : IsPosix net) (l : Load) (e : Engine curl net) (t : TimelineId) (xs : List PageWrite)
      (lsn : ℕ)
      → (loaded : ℕ) × (e' : Engine curl net) × (results : List HaResult) × (lsn' : ℕ)
        × (e'' : Engine curl net) × (serverless_init_func curl net l e ≡ some (loaded, e'))
        × (write_pages curl net t xs (lsn, e') ≡ some (results, lsn', e''))
        × (length results ≡ length xs)
        × All IsFailure results
  load_then_writes-fail posix l e t xs lsn =
      let (loaded, e', pool, done, v, there) = loaded-IsNamed curl net l e in
      let (results, lsn', e'', written, long, failed, _) =
        write_pages-fails curl net posix t xs lsn e'
          (record { named = v; pool = pool; there = there }) in
      (loaded, e', results, lsn', e'', done, written, long, failed)
