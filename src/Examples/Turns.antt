-- ===== src/Examples/Turns.antt =====
-- Instances for many handlers of a loaded plugin.
use mariadb_serverless_engin.Base.{ℕ, List, [], ◌∷◌, if◌then◌else◌, ◌==◌}
use mariadb_serverless_engin.Text.{codes}
use mariadb_serverless_engin.Engine.{Engine, Handler}
use mariadb_serverless_engin.Handler.Rows.{RowOp, writes, updates}
use mariadb_serverless_engin.SafekeeperClient.{Memory, WalAppendRequest}
use mariadb_serverless_engin.Examples.Keepers.{rows}

abbrev memory : WalAppendRequest → Memory
memory request = rows

-- The handler 6 has a table of its own.
abbrev names : ℕ → List ℕ
names j = if j == 6 then codes "./db/a" else codes "./db/b"

abbrev turns : List (ℕ × RowOp)
turns = (6, writes 1) ∷ (8, writes 2) ∷ (6, updates 1 2) ∷ []
