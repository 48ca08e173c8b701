-- ===== src/SafekeeperClient/Loop.antt =====
-- src/safekeeper_client.cc, `worker_thread_main`: the whole loop, while no other thread appends.
use mariadb_serverless_engin.Base.{
  ℕ, zero, suc, ◌≡◌, refl, ◌∙◌, true, false, List, [], ◌∷◌, Option, none, some, arith, All, length,
  ◌>>=◌, Bool-cases, inl, inr, ℤ, is_nat,
}
use mariadb_serverless_engin.Types.{TimelineId, WalRecord}
use mariadb_serverless_engin.Sockets.{Sockets}
use mariadb_serverless_engin.SafekeeperClient.{
  Client, Memory, WalAppendRequest, append_wal_record, serialize_append_request, record_data,
  reconnect_if_needed, message_of, append_text,
}
use mariadb_serverless_engin.SafekeeperClient.Worker.{
  leaves, waits, takes, wake, process_append_request, append_keeps,
}

-- How the loop stands: left after a shutdown request, waiting for a request, or not followed any
-- further.
pub data LoopEnd : Type 0 where
  left waiting running : LoopEnd

-- What the worker writes into a request before it deletes it.
unfoldable pub complete : ℤ → WalAppendRequest → WalAppendRequest
complete result request = record request { completed = true; result = result }

-- The requests deleted are the requests queued, in order, each completed.
abbrev pub Completes : List WalAppendRequest → List WalAppendRequest → Type 0
Completes [] [] = Unit
Completes (r ∷ rs) (d ∷ ds) = (d ≡ complete d.result r) × Completes rs ds
Completes _ _ = ⊥

module _ (net : Sockets) (m : WalAppendRequest → Memory) where
  -- `n` rounds at most, with the requests in the state in which they are deleted. `m request` is the
  -- memory when the request is processed.
  unfoldable pub worker_thread_main :
      ℕ → Client → net.World → Option (LoopEnd × List WalAppendRequest × Client × net.World)
  unfolding process_append_request complete
  worker_thread_main zero c w = some (running, [], c, w)
  worker_thread_main (suc n) c w = elim (wake c) [
    | leaves ↦ some (left, [], c, w)
    | waits ↦ some (waiting, [], c, w)
    | takes request c' ↦
        process_append_request net request (m request) c' w >>= λ (result, c'', w').
        worker_thread_main n c'' w' >>= λ (end, done, c''', w'').
        some (end, complete result request ∷ done, c''', w'')
  ]

  -- The record's bytes can be read: its data end within their object.
  abbrev pub IsReadable : WalAppendRequest → Type 0
  IsReadable request = (bytes : List ℕ) × (record_data request.wal_record (m request) ≡ some bytes)

  append-some :
      (t : TimelineId) (r : WalRecord) (n : Memory) (c : Client) (w : net.World)
      (message : Option (List ℕ))
      → serialize_append_request t r n 4096 ≡ some message
      → (result : ℤ) × (c' : Client) × (w' : net.World) × (append_wal_record net t r n c w
          ≡ some (result, c', w'))
  unfolding append_wal_record
  append-some t r n c w none e = elim (Bool-cases (is_nat (reconnect_if_needed net c w).0 0)) [
    | inl ready ↦ rw (ready, e, ◌>>=◌) (_, _, _, refl)
    | inr unready ↦ rw unready (_, _, _, refl)
  ]
  append-some t r n c w (some text) e =
      elim (Bool-cases (is_nat (reconnect_if_needed net c w).0 0)) [
        | inl ready ↦ rw (ready, e, ◌>>=◌) (_, _, _, refl)
        | inr unready ↦ rw unready (_, _, _, refl)
      ]

  process-some :
      (request : WalAppendRequest) (c : Client) (w : net.World)
      → IsReadable request
      → (result : ℤ) × (c' : Client) × (w' : net.World) × (process_append_request net request
            (m request)
            c
            w
          ≡ some (result, c', w'))
  unfolding process_append_request serialize_append_request
  process-some request c w (bytes, e) =
      let message = message_of 4096 (append_text request.timeline_id request.wal_record bytes) in
      append-some request.timeline_id request.wal_record (m request) c w message (rw (e, ◌>>=◌))

  pub process_keeps :
      (request : WalAppendRequest) (c c' : Client) (w w' : net.World) (result : ℤ)
      → process_append_request net request (m request) c w ≡ some (result, c', w')
      → (c'.append_queue ≡ c.append_queue) × (c'.shutdown_requested ≡ c.shutdown_requested)
  unfolding process_append_request
  process_keeps request c c' w w' result done =
      append_keeps net request.timeline_id request.wal_record (m request) c c' w w' result done

  pub wake-first :
      (request : WalAppendRequest) (rest : List WalAppendRequest) (c : Client)
      → c.append_queue ≡ request ∷ rest
      → c.shutdown_requested ≡ false
      → wake c ≡ takes request (record c { append_queue = rest })
  unfolding wake
  wake-first request rest c queued up = ground arith

  pub wake-none : (c : Client) → c.append_queue ≡ [] → c.shutdown_requested ≡ false → wake c ≡ waits
  unfolding wake
  wake-none c empty up = rw (up, empty)

  pub round :
      (n : ℕ) (c c1 c2 c3 : Client) (w w2 w3 : net.World) (request : WalAppendRequest) (result : ℤ)
      (end : LoopEnd) (ds : List WalAppendRequest)
      → wake c ≡ takes request c1
      → process_append_request net request (m request) c1 w ≡ some (result, c2, w2)
      → worker_thread_main n c2 w2 ≡ some (end, ds, c3, w3)
      → worker_thread_main (suc n) c w ≡ some (end, complete result request ∷ ds, c3, w3)
  unfolding worker_thread_main
  round n c c1 c2 c3 w w2 w3 request result end ds woken done rest =
      rw (woken, worker_thread_main, done, ◌>>=◌, rest)

  pub last_round :
      (n : ℕ) (c : Client) (w : net.World)
      → wake c ≡ waits
      → worker_thread_main (suc n) c w ≡ some (waiting, [], c, w)
  unfolding worker_thread_main
  last_round n c w woken = rw (woken, worker_thread_main)

  drains :
      (queue : List WalAppendRequest) (c : Client) (w : net.World)
      → c.append_queue ≡ queue
      → c.shutdown_requested ≡ false
      → All IsReadable queue
      → (done : List WalAppendRequest) × (c' : Client) × (w' : net.World) × (worker_thread_main
            (suc (length queue))
            c
            w
          ≡ some (waiting, done, c', w'))
        × (c'.append_queue ≡ [])
        × Completes queue done
  unfolding complete
  drains [] c w empty up readable = ([], c, w, last_round 0 c w (wake-none c empty up), empty, tt)
  drains (request ∷ rest) c w queued up readable =
      let c1 = record c { append_queue = rest } in
      let (result, c2, w2, done) = process-some request c1 w readable.0 in
      let (queue, flag) = process_keeps request c1 c2 w w2 result done in
      let (ds, c3, w3, more, empty, completes) = drains rest c2 w2 queue (flag ∙ up) readable.1 in
      (
        complete result request ∷ ds,
        c3,
        w3,
        round (suc (length rest)) c c1 c2 c3 w w2 w3 request result waiting ds
            (wake-first request rest c queued up) done more,
        empty,
        (refl, completes),
      )

  -- While no shutdown is requested and the data of every queued record can be read, the worker
  -- processes all that is queued, whatever the network does, in one round each, and then waits: the
  -- requests are completed in the order of the queue, which is empty at the end.
  pub worker-drains :
      (c : Client) (w : net.World)
      → c.shutdown_requested ≡ false
      → All IsReadable c.append_queue
      → (done : List WalAppendRequest) × (c' : Client) × (w' : net.World) × (worker_thread_main
            (suc (length c.append_queue))
            c
            w
          ≡ some (waiting, done, c', w'))
        × (c'.append_queue ≡ [])
        × Completes c.append_queue done
  worker-drains c w up readable = drains c.append_queue c w refl up readable
