-- ===== src/Handler/Arrivals.antt =====
-- src/ha_serverless.cc with src/safekeeper_client.cc: row operations of many handlers, in any order,
-- from the handlers to the safekeeper.
use mariadb_serverless_engin.Base.{ℕ, ◌^◌, ◌<◌, ◌≡◌, true, List, [], none, some}
use mariadb_serverless_engin.Sockets.{Sockets}
use mariadb_serverless_engin.PageserverClient.{Curl}
use mariadb_serverless_engin.SafekeeperClient.{Memory, WalAppendRequest}
use mariadb_serverless_engin.Engine.{Engine, Handler}
use mariadb_serverless_engin.Handler.Rows.{RowOp}
use mariadb_serverless_engin.Handler.Delivered.{IsBuffer}

-- A handler that has a safekeeper, and whose numbers fit 64 bits.
pub record IsWriter (h : Handler) : Type 0 where
  pub set : h.has_keeper ≡ true
  pub timeline : h.current_timeline.id < 2 ^ 64
  pub lsn : h.current_lsn < 2 ^ 64

abbrev pub IsBufferOf : Memory → ℕ → ℕ × RowOp → Type 0
IsBufferOf m reclength entry = IsBuffer m reclength entry.1

module _ (curl : Curl) (net : Sockets) where
  -- What waits at the engine's safekeeper client.
  pending : Engine curl net → List WalAppendRequest
  pending e = elim e.legacy_keeper [ none ↦ [] | some keeper ↦ keeper.append_queue ]
