-- ===== src/Plugin/Loss.antt =====
-- src/ha_serverless.cc with src/safekeeper_client.cc: what becomes of the rows of a loaded plugin.
use mariadb_serverless_engin.Base.{
  ℕ, suc, ◌≡◌, refl, ◌∙◌, subst, true, false, List, [], ◌∷◌, some, All, length, minus_one,
}
use mariadb_serverless_engin.Types.{TimelineId}
use mariadb_serverless_engin.Timeline.{hash_string}
use mariadb_serverless_engin.Sockets.{Sockets, IsPosix, IsAddressChar}
use mariadb_serverless_engin.Text.{codes}
use mariadb_serverless_engin.PageserverClient.{Curl}
use mariadb_serverless_engin.Engine.{Engine, Handler}
use mariadb_serverless_engin.Handler.{new_handler}
use mariadb_serverless_engin.Handler.Rows.{RowOp, requests, session}
use mariadb_serverless_engin.Plugin.{Load, serverless_init_func}
use mariadb_serverless_engin.Plugin.Loaded.{load_then_session}
use mariadb_serverless_engin.SafekeeperClient.{new_client, Client, Memory, WalAppendRequest}
use mariadb_serverless_engin.SafekeeperClient.Connection.{append-dotted, localhost_named}
use mariadb_serverless_engin.SafekeeperClient.Worker.{process_append_request}
use mariadb_serverless_engin.SafekeeperClient.Loop.{
  waiting, complete, worker_thread_main, Completes, process_keeps, wake-first, wake-none, round,
  last_round,
}

-- A request that was worked off without success.
pub record IsLost (request : WalAppendRequest) : Type 0 where
  pub completed : request.completed ≡ true
  pub failed : request.result ≡ minus_one

module _ (net : Sockets) (m : WalAppendRequest → Memory) where
  pub worker-loses :
      (posix : IsPosix net) (queue : List WalAppendRequest) (c : Client) (w : net.World)
      → c.append_queue ≡ queue
      → c.shutdown_requested ≡ false
      → ¬ All IsAddressChar c.server_host
      → c.connected ≡ false
      → (done : List WalAppendRequest) × (c' : Client) × (w' : net.World) × (worker_thread_main net
            m
            (suc (length queue))
            c
            w
          ≡ some (waiting, done, c', w'))
        × Completes queue done
        × All IsLost done
  unfolding complete process_append_request
  worker-loses posix [] c w empty up named down =
      ([], c, w, last_round net m 0 c w (wake-none net m c empty up), tt, tt)
  worker-loses posix (request ∷ rest) c w queued up named down =
      let c1 = record c { append_queue = rest } in
      let (c2, w2, done, still, host) =
        append-dotted net posix request.timeline_id request.wal_record (m request) c1 w named
          down in
      let (queue, flag) = process_keeps net m request c1 c2 w w2 minus_one done in
      let (ds, c3, w3, more, completes, lost) =
        worker-loses posix rest c2 w2 queue (flag ∙ up)
          (λ h. named (subst (All IsAddressChar) host h)) still in
      (
        complete minus_one request ∷ ds,
        c3,
        w3,
        round net m (suc (length rest)) c c1 c2 c3 w w2 w3 request minus_one waiting ds
            (wake-first net m request rest c queued up) done more,
        (refl, completes),
        (record { completed = refl; failed = refl }, lost),
      )

module _ (curl : Curl) (net : Sockets) where
  -- Let `inet_pton` be as documented and the health thread start. The plugin then loads with
  -- success, and every change of rows by a new handler reports success. The safekeeper client's worker
  -- works off the queue of these changes, whatever the network does, in one round for each, and each of
  -- them is completed with the result -1.
  pub load_then_loss :
      (posix : IsPosix net) (m : WalAppendRequest → Memory) (l : Load) (e : Engine curl net)
      (index reclength : ℕ) (name : List ℕ) (ops : List RowOp) (w : net.World)
      → l.starts ≡ true
      → let t : TimelineId = record { id = hash_string name } in
        (e' : Engine curl net) × (h' : Handler) × (e'' : Engine curl net) × (keeper : Client)
        × (done : List WalAppendRequest) × (c' : Client) × (w' : net.World) × (serverless_init_func
              curl net l e
            ≡ some (0, e'))
        × (session curl net reclength name ops (new_handler curl net index e') e' ≡ some (h', e''))
        × (e''.legacy_keeper ≡ some keeper)
        × (worker_thread_main net m (suc (length keeper.append_queue)) keeper w
            ≡ some (waiting, done, c', w'))
        × Completes (requests t 1 reclength ops) done
        × All IsLost done
  unfolding new_client
  load_then_loss posix m l e index reclength name ops w starts =
      let t : TimelineId = record { id = hash_string name } in
      let (e', h', loaded, _, changed) =
        load_then_session curl net l e index reclength name ops starts in
      let keeper = record (new_client (codes "localhost") 5433) {
        append_queue = requests t 1 reclength ops;
      } in
      let (done, c', w', worked, completes, lost) =
        worker-loses net m posix (requests t 1 reclength ops) keeper w refl refl localhost_named
          refl in
      (e', h', _, keeper, done, c', w', loaded, changed, refl, worked, completes, lost)
