-- ===== src/Plugin/Turns.antt =====
-- src/ha_serverless.cc with src/safekeeper_client.cc: the rows of many handlers of a loaded plugin.
use mariadb_serverless_engin.Base.{ℕ, List}
use mariadb_serverless_engin.Sockets.{Sockets}
use mariadb_serverless_engin.PageserverClient.{Curl}
use mariadb_serverless_engin.Engine.{Engine, Handler}
use mariadb_serverless_engin.Handler.{new_handler, open_table}

module _ (curl : Curl) (net : Sockets) where
  -- The handlers of an engine, each with its table opened.
  abbrev pub with_tables : (ℕ → List ℕ) → Engine curl net → ℕ → Handler
  with_tables names e j = (open_table curl net (names j) (new_handler curl net j e) e).1
