-- ===== src/Handler/Delivered.antt =====
-- src/ha_serverless.cc with src/safekeeper_client.cc: row operations over a safekeeper client that is
-- connected, from the handler to the safekeeper.
use mariadb_serverless_engin.Base.{
  ℕ, zero, suc, ◌+◌, ◌^◌, ◌%◌, ◌<◌, ◌≤◌, ◌≡◌, refl, ap, true, false, List, [], ◌∷◌, ◌++◌, some,
  arith, All, length, length-append, ltb, ◌==◌, u64, ◌>>=◌,
}
use mariadb_serverless_engin.Types.{TimelineId, WalRecord}
use mariadb_serverless_engin.Timeline.{hash_string, hash_string-lt}
use mariadb_serverless_engin.Text.{codes, decimal, c_string_upto}
use mariadb_serverless_engin.Text.Decimal.{length-decimal-le}
use mariadb_serverless_engin.Sockets.{Sockets}
use mariadb_serverless_engin.PageserverClient.{Curl}
use mariadb_serverless_engin.SafekeeperClient.{
  Client, Memory, WalAppendRequest, record_data, append_text,
}
use mariadb_serverless_engin.SafekeeperClient.Worker.{new_request}
use mariadb_serverless_engin.SafekeeperClient.Loop.{waiting, worker_thread_main, Completes}
use mariadb_serverless_engin.SafekeeperClient.Delivery.{
  IsKeeping, IsSendable, IsLinked, IsLogged, TellAll, worker-delivers,
}
use mariadb_serverless_engin.Engine.{Engine, Handler}
use mariadb_serverless_engin.Handler.{initialize_timeline}
use mariadb_serverless_engin.Handler.Rows.{RowOp, logged, requests, session, session-some}

-- Reading a string within its object.
c_string_upto-some :
    (n : ℕ) (bytes : List ℕ)
    → n ≤ length bytes
    → (s : List ℕ) × (c_string_upto n bytes ≡ some s) × (length s ≤ n)
unfolding c_string_upto
c_string_upto-some zero bytes h = ([], refl, omega arith)
c_string_upto-some (suc n) [] h = absurd (omega arith)
c_string_upto-some (suc n) (zero ∷ bytes) h = ([], refl, omega arith)
c_string_upto-some (suc n) (suc c ∷ bytes) h =
    let (s, e, short) = c_string_upto-some n bytes (omega arith) in
    let nonzero : (suc c == 0) ≡ false = ground arith in
    (suc c ∷ s, rw (e, nonzero, ◌>>=◌), omega arith)

-- Around its data, a message has at most 190 bytes.
length-append_text :
    (t : TimelineId) (r : WalRecord) (bytes : List ℕ)
    → length (append_text t r bytes) ≤ 190 + length bytes
unfolding append_text
length-append_text t r bytes =
    let fourth = codes ",\"data\":\"" ++ (bytes ++ codes "\"}") in
    let third = codes ",\"length\":" ++ (decimal r.length ++ fourth) in
    let second = codes ",\"lsn\":" ++ (decimal r.lsn ++ third) in
    omega (
      arith,
      length-append (decimal t.id) second,
      length-append (decimal r.lsn) third,
      length-append (decimal r.length) fourth,
      length-append bytes (codes "\"}"),
      length-decimal-le t.id,
      length-decimal-le r.lsn,
      length-decimal-le r.length,
    )

-- The buffer whose address an operation logs has the length of a row.
abbrev pub IsBuffer : Memory → ℕ → RowOp → Type 0
IsBuffer m reclength op = reclength ≤ length (m (logged op))

pub requests-IsSendable :
    (m : Memory) (t : TimelineId) (lsn reclength : ℕ) (ops : List RowOp)
    → t.id < 2 ^ 64
    → lsn < 2 ^ 64
    → reclength ≤ 3900
    → All (IsBuffer m reclength) ops
    → All (IsSendable m) (requests t lsn reclength ops)
unfolding new_request record_data
requests-IsSendable m t lsn reclength [] ht hl small buffers = tt
requests-IsSendable m t lsn reclength (op ∷ ops) ht hl small buffers =
    let r : WalRecord = record { lsn = lsn; length = reclength % 2 ^ 32; address = logged op } in
    let (bytes, e, short) = c_string_upto-some reclength (m (logged op)) buffers.0 in
    let kept : reclength % 2 ^ 32 ≡ reclength = omega arith in
    let whole : ltb reclength (2 ^ 31) ≡ true = ground arith in
    (
      record {
        timeline = ht;
        lsn = hl;
        size = omega arith;
        bytes = bytes;
        readable = rw (kept, whole, e);
        short = omega (arith, length-append_text t r bytes);
      },
      requests-IsSendable m t (u64 (lsn + 1)) reclength ops ht (omega arith) small buffers.1,
    )

module _ (curl : Curl) (net : Sockets) (keeping : IsKeeping net) where
  -- Let the engine's safekeeper client be connected, not shut down, and without requests (as
  -- `set_server_address` and `connect` can leave it, which the plugin does not call), and let the
  -- safekeeper take each message whole and answer it. A handler with a safekeeper opens a table and
  -- changes rows of 3900 bytes at most, whose buffers are as long as a row and keep their contents.
  -- Then all changes succeed, the worker completes the request of each, once and in the order of the
  -- changes, all with success, and in that order the messages arrive that read back as the table's timeline, the sequence numbers
  -- 1, 2, ... modulo 2 ^ 64, the length of a row, and the row's bytes up to its first zero.
  pub rows_arrive :
      (m : Memory) (reclength : ℕ) (name : List ℕ) (ops : List RowOp) (h : Handler)
      (e : Engine curl net) (keeper : Client) (w : net.World)
      → h.has_keeper ≡ true
      → e.legacy_keeper ≡ some keeper
      → IsLinked keeper
      → keeper.shutdown_requested ≡ false
      → keeper.append_queue ≡ []
      → reclength ≤ 3900
      → All (IsBuffer m reclength) ops
      → let t : TimelineId = record { id = hash_string name } in
        (h' : Handler) × (e' : Engine curl net) × (keeper' : Client) × (done : List
          WalAppendRequest)
        × (texts : List (List ℕ)) × (c' : Client) × (w' : net.World) × (session curl net reclength
              name ops h e
            ≡ some (h', e'))
        × (e'.legacy_keeper ≡ some keeper')
        × (worker_thread_main net (λ request. m) (suc (length keeper'.append_queue)) keeper' w
            ≡ some (waiting, done, c', w'))
        × Completes (requests t 1 reclength ops) done
        × All IsLogged done
        × (keeping.arrived w' ≡ keeping.arrived w ++ texts)
        × TellAll (λ request. m) (requests t 1 reclength ops) texts
  unfolding initialize_timeline
  rows_arrive m reclength name ops h e keeper w set there linked up empty small buffers =
      let t : TimelineId = record { id = hash_string name } in
      let queue = requests t 1 reclength ops in
      let keeper' = record keeper { append_queue = queue } in
      let sendable =
        requests-IsSendable m t 1 reclength ops (hash_string-lt name) (omega arith) small buffers in
      let (done, texts, c', w', worked, completes, logged, arrived, told) =
        worker-delivers net keeping (λ request. m) keeper' w
          (record { connected = linked.connected; socket = linked.socket }) up sendable in
      (
        _,
        _,
        keeper',
        done,
        texts,
        c',
        w',
        session-some curl net reclength name ops h e keeper set there,
        ap (λ q. some (record keeper { append_queue = q ++ queue })) empty,
        worked,
        completes,
        logged,
        arrived,
        told,
      )
