-- ===== src/Plugin/Calls.antt =====
-- src/ha_serverless.cc: how often a handler of a loaded plugin asks the pageserver.
use mariadb_serverless_engin.Base.{ℕ}
use mariadb_serverless_engin.Sockets.{Sockets}
use mariadb_serverless_engin.Timeline.{page_key}
use mariadb_serverless_engin.Engine.{Engine, Handler}
use mariadb_serverless_engin.Handler.Transparent.{Request}

abbrev pub key_of : Request → ℕ
key_of r = page_key r.page
