-- ===== src/SafekeeperClient/Delivery.antt =====
-- src/safekeeper_client.cc: what reaches a safekeeper that takes whole messages and answers them.
use mathlib.Core.List.{append_assoc, append-nil}
use mariadb_serverless_engin.Base.{
  ℕ, suc, ◌^◌, ◌<◌, ◌≡◌, refl, sym, ap, ◌∙◌, true, false, List, [], ◌∷◌, ◌++◌, some, arith, All,
  length, ◌>>=◌, ℤ, pos, is_neg,
}
use mariadb_serverless_engin.Types.{TimelineId, WalRecord}
use mariadb_serverless_engin.Sockets.{Sockets}
use mariadb_serverless_engin.SafekeeperClient.{
  Client, Memory, WalAppendRequest, append_wal_record, serialize_append_request, record_data,
  append_text, reconnect_if_needed, exchange, send_message, receive_message, received,
  deserialize_append_response,
}
use mariadb_serverless_engin.SafekeeperClient.Parse.{parse_append, serialize-parse}
use mariadb_serverless_engin.SafekeeperClient.Worker.{process_append_request}
use mariadb_serverless_engin.SafekeeperClient.Loop.{
  waiting, complete, worker_thread_main, Completes, wake-first, wake-none, round, last_round,
}

-- A safekeeper that takes each message whole and answers it with some bytes; `arrived` are the
-- messages it has, oldest first.
pub record IsKeeping (net : Sockets) : Type 0 where
  pub arrived : net.World → List (List ℕ)
  pub whole :
      (fd : ℤ) (text : List ℕ) (w : net.World) → (net.send_to fd text w).0 ≡ pos (length text)
  pub arrives :
      (fd : ℤ) (text : List ℕ) (w : net.World)
      → arrived (net.send_to fd text w).1 ≡ arrived w ++ text ∷ []
  pub answers :
      (fd : ℤ) (w : net.World)
      → (c : ℕ) × (bytes : List ℕ) × ((net.receive fd 1023 w).0 ≡ some (c ∷ bytes))
  pub quiet : (fd : ℤ) (w : net.World) → arrived (net.receive fd 1023 w).1 ≡ arrived w

-- A request whose numbers are within 64, 64 and 32 bits, whose data can be read, and whose message
-- is shorter than the buffer.
pub record IsSendable (m : Memory) (request : WalAppendRequest) : Type 0 where
  pub timeline : request.timeline_id.id < 2 ^ 64
  pub lsn : request.wal_record.lsn < 2 ^ 64
  pub size : request.wal_record.length < 2 ^ 32
  pub bytes : List ℕ
  pub readable : record_data request.wal_record m ≡ some bytes
  pub short : length (append_text request.timeline_id request.wal_record bytes) < 4096

-- A message tells what a request is about: read back, it gives its timeline, its record and the data.
abbrev pub Tells : Memory → WalAppendRequest → List ℕ → Type 0
Tells m request text =
    (bytes : List ℕ) × (record_data request.wal_record m ≡ some bytes)
    × (parse_append text
        ≡ some (record {
          timeline_id = request.timeline_id.id;
          lsn = request.wal_record.lsn;
          length = request.wal_record.length;
          bytes = bytes;
        }))

-- The messages tell the requests, one each, in order.
abbrev pub TellAll : (WalAppendRequest → Memory) → List WalAppendRequest → List (List ℕ) → Type 0
TellAll m [] [] = Unit
TellAll m (r ∷ rs) (text ∷ texts) = Tells (m r) r text × TellAll m rs texts
TellAll m _ _ = ⊥

pub record IsLogged (request : WalAppendRequest) : Type 0 where
  pub completed : request.completed ≡ true
  pub succeeded : request.result ≡ pos 0

pub record IsLinked (c : Client) : Type 0 where
  pub connected : c.connected ≡ true
  pub socket : is_neg c.socket_fd ≡ false

module _ (net : Sockets) (keeping : IsKeeping net) where
  -- What the world becomes by one message and its answer.
  unfoldable after : Client → List ℕ → net.World → net.World
  after c text w = (net.receive c.socket_fd 1023 (net.send_to c.socket_fd text w).1).1

  exchange-sends :
      (text : List ℕ) (c : Client) (w : net.World)
      → IsLinked c
      → (stored : List ℕ) × (exchange net c text w ≡ (some stored, after c text w))
  unfolding exchange send_message receive_message received after
  exchange-sends text c w v =
      let (b, bytes, answered) = keeping.answers c.socket_fd (net.send_to c.socket_fd text w).1 in
      (
        (b ∷ bytes) ++ 0 ∷ [],
        ground (arith, v.connected, v.socket, keeping.whole c.socket_fd text w, answered),
      )

  ready : (c : Client) (w : net.World) → IsLinked c → reconnect_if_needed net c w ≡ (pos 0, c, w)
  unfolding reconnect_if_needed
  ready c w v = ground (arith, v.connected)

  append-sends :
      (t : TimelineId) (r : WalRecord) (m : Memory) (text : List ℕ) (c : Client) (w : net.World)
      → IsLinked c
      → serialize_append_request t r m 4096 ≡ some (some text)
      → append_wal_record net t r m c w ≡ some (pos 0, c, after c text w)
  unfolding append_wal_record deserialize_append_response
  append-sends t r m text c w v e =
      let (stored, sent) = exchange-sends text c w v in
      rw (ready c w v, append_wal_record, e, ◌>>=◌, ready c w v, sent)

  -- One request: its message arrives, and tells the request.
  process-sends :
      (m : Memory) (request : WalAppendRequest) (c : Client) (w : net.World)
      → IsLinked c
      → IsSendable m request
      → (text : List ℕ) × (w' : net.World) × (process_append_request net request m c w
          ≡ some (pos 0, c, w'))
        × (keeping.arrived w' ≡ keeping.arrived w ++ text ∷ [])
        × Tells m request text
  unfolding process_append_request after
  process-sends m request c w v s =
      let (text, serialized, told) =
        serialize-parse request.timeline_id request.wal_record m 4096 s.bytes s.timeline s.lsn
          s.size s.readable s.short (omega arith) in
      (
        text,
        after c text w,
        append-sends request.timeline_id request.wal_record m text c w v serialized,
        keeping.quiet c.socket_fd (net.send_to c.socket_fd text w).1
            ∙ keeping.arrives c.socket_fd text w,
        (s.bytes, s.readable, told),
      )

  module _ (m : WalAppendRequest → Memory) where
    abbrev pub IsSendableNow : WalAppendRequest → Type 0
    IsSendableNow request = IsSendable (m request) request

    delivers :
        (queue : List WalAppendRequest) (c : Client) (w : net.World)
        → IsLinked c
        → c.append_queue ≡ queue
        → c.shutdown_requested ≡ false
        → All IsSendableNow queue
        → (done : List WalAppendRequest) × (texts : List (List ℕ)) × (c' : Client)
          × (w' : net.World) × (worker_thread_main net m (suc (length queue)) c w
              ≡ some (waiting, done, c', w'))
          × Completes queue done
          × All IsLogged done
          × (keeping.arrived w' ≡ keeping.arrived w ++ texts)
          × TellAll m queue texts
    unfolding complete
    delivers [] c w v empty up s = (
      [],
      [],
      c,
      w,
      last_round net m 0 c w (wake-none net m c empty up),
      tt,
      tt,
      sym (append-nil (keeping.arrived w)),
      tt,
    )
    delivers (request ∷ rest) c w v queued up s =
        let c1 = record c { append_queue = rest } in
        let (text, w2, sent, arrived, told) =
          process-sends (m request) request c1 w
            (record { connected = v.connected; socket = v.socket }) s.0 in
        let (ds, texts, c3, w3, more, completes, logged, all_arrived, all_told) =
          delivers rest c1 w2 (record { connected = v.connected; socket = v.socket }) refl up s.1 in
        (
          complete (pos 0) request ∷ ds,
          text ∷ texts,
          c3,
          w3,
          round net m (suc (length rest)) c c1 c1 c3 w w2 w3 request (pos 0) waiting ds
              (wake-first net m request rest c queued up) sent more,
          (refl, completes),
          (record { completed = refl; succeeded = refl }, logged),
          all_arrived
              ∙ ap (λ xs. xs ++ texts) arrived
              ∙ append_assoc (keeping.arrived w) (text ∷ []) texts,
          (told, all_told),
        )

    -- Let a safekeeper take each message whole and answer it. A worker whose client is connected and
    -- not shut down then works off its queue, if the data of each queued record can be read and fit
    -- into its message: all requests are completed with success, and as many messages arrive as there
    -- were requests, in their order, each of which reads back as the request's record and data.
    pub worker-delivers :
        (c : Client) (w : net.World)
        → IsLinked c
        → c.shutdown_requested ≡ false
        → All IsSendableNow c.append_queue
        → (done : List WalAppendRequest) × (texts : List (List ℕ)) × (c' : Client)
          × (w' : net.World) × (worker_thread_main net m (suc (length c.append_queue)) c w
              ≡ some (waiting, done, c', w'))
          × Completes c.append_queue done
          × All IsLogged done
          × (keeping.arrived w' ≡ keeping.arrived w ++ texts)
          × TellAll m c.append_queue texts
    worker-delivers c w v up s = delivers c.append_queue c w v refl up s
