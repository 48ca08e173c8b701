-- ===== src/SafekeeperClient/Worker.antt =====
-- src/safekeeper_client.cc: the queue of append requests and the thread that works it off.
use mariadb_serverless_engin.Base.{
  ◌≡◌, refl, sym, ap, ◌∙◌, true, false, List, [], ◌∷◌, ◌++◌, append_assoc, append-nil, Option, some,
  arith, if◌then◌else◌, ℤ, pos,
}
use mariadb_serverless_engin.Types.{TimelineId, WalRecord}
use mariadb_serverless_engin.Sockets.{Sockets}
use mariadb_serverless_engin.SafekeeperClient.{
  Client, Memory, WalAppendRequest, append_wal_record, establish_connection, close_connection,
  reconnect_if_needed,
}

unfoldable pub new_request : TimelineId → WalRecord → WalAppendRequest
new_request t r = record { timeline_id = t; wal_record = r; completed = false; result = pos 0 }

-- The request is queued, and success reported at once.
unfoldable pub append_wal_record_async : TimelineId → WalRecord → Client → ℤ × Client
unfolding new_request
append_wal_record_async t r c =
    (pos 0, record c { append_queue = c.append_queue ++ new_request t r ∷ [] })

-- What the worker does once its wait is over: leave the loop, take a request, or wait on.
pub data Wakeup : Type 0 where
  leaves waits : Wakeup
  takes : WalAppendRequest → Client → Wakeup

unfoldable pub wake : Client → Wakeup
wake c = if c.shutdown_requested then leaves else elim c.append_queue [
  | [] ↦ waits
  | request ∷ rest ↦ takes request (record c { append_queue = rest })
]

unfoldable pub request_shutdown : Client → Client
request_shutdown c = record c { shutdown_requested = true }

-- Where the worker stands: at the lock of the queue, with a request that it has taken, or behind its
-- loop.
pub data Place : Type 0 where
  at_queue ended : Place
  processing : WalAppendRequest → Place

abbrev pub in_flight : Place → List WalAppendRequest
in_flight at_queue = []
in_flight ended = []
in_flight (processing request) = request ∷ []

module _ (net : Sockets) where
  unfoldable pub process_append_request :
      WalAppendRequest → Memory → Client → net.World → Option (ℤ × Client × net.World)
  process_append_request request m c w =
      append_wal_record net request.timeline_id request.wal_record m c w

  -- The destructor, after the worker has ended: the requests that it deletes, and what is left.
  unfoldable pub destruct : Client → net.World → List WalAppendRequest × Client × net.World
  destruct c w =
      let (c', w') = close_connection net (record c { append_queue = [] }) w in
      (c.append_queue, c', w')

  -- A client, where its worker stands, and the requests appended and the requests processed so far,
  -- oldest first.
  pub record System : Type 0 where
    pub client : Client
    pub world : net.World
    pub place : Place
    pub appended : List WalAppendRequest
    pub processed : List WalAppendRequest

  -- The worker holds the lock of the queue while it takes a request and not while it processes it, so
  -- that between the two other threads append requests or the shutdown is requested. The memory that a
  -- request is processed in is the one of that moment.
  pub data Step (s : System) : System → Type 0 where
    appends :
        (t : TimelineId) (r : WalRecord)
        → Step s (record s {
          client = (append_wal_record_async t r s.client).1;
          appended = s.appended ++ new_request t r ∷ [];
        })
    fetches :
        (request : WalAppendRequest) {c : Client}
        → s.place ≡ at_queue
        → wake s.client ≡ takes request c
        → Step s (record s { client = c; place = processing request })
    works :
        (m : Memory) (request : WalAppendRequest) {c : Client} {w : net.World} {result : ℤ}
        → s.place ≡ processing request
        → process_append_request request m s.client s.world ≡ some (result, c, w)
        → Step s (record s {
          client = c;
          world = w;
          place = at_queue;
          processed = s.processed ++ request ∷ [];
        })
    ends : s.place ≡ at_queue → wake s.client ≡ leaves → Step s (record s { place = ended })
    stops : Step s (record s { client = request_shutdown s.client })

  pub data Reach (s : System) : System → Type 0 where
    here : Reach s s
    next : {t u : System} → Reach s t → Step t u → Reach s u

  -- Appending leaves the queue and the flag alone.
  pub append_keeps :
      (t : TimelineId) (r : WalRecord) (m : Memory) (c c' : Client) (w w' : net.World) (result : ℤ)
      → append_wal_record net t r m c w ≡ some (result, c', w')
      → (c'.append_queue ≡ c.append_queue) × (c'.shutdown_requested ≡ c.shutdown_requested)
  unfolding append_wal_record reconnect_if_needed establish_connection
  append_keeps t r m c c' w w' result e = ground arith

  wake-takes :
      (c c' : Client) (request : WalAppendRequest)
      → wake c ≡ takes request c'
      → (c.append_queue ≡ request ∷ c'.append_queue)
        × (c.shutdown_requested ≡ false)
        × (c'.shutdown_requested ≡ false)
  unfolding wake
  wake-takes c c' request e = ground arith

  abbrev pub IsFifo : System → Type 0
  IsFifo s = s.appended ≡ s.processed ++ (in_flight s.place ++ s.client.append_queue)

  Step-IsFifo : {s t : System} → Step s t → IsFifo s → IsFifo t
  unfolding append_wal_record_async request_shutdown process_append_request
  Step-IsFifo {s} (appends t r) h =
      ap (λ q. q ++ new_request t r ∷ []) h
      ∙ append_assoc s.processed (in_flight s.place ++ s.client.append_queue) (new_request t r ∷ [])
      ∙ ap (◌++◌ s.processed)
          (append_assoc (in_flight s.place) s.client.append_queue (new_request t r ∷ []))
  Step-IsFifo {s} (fetches request {c} free woken) h =
      h
      ∙ ap (λ place. s.processed ++ (in_flight place ++ s.client.append_queue)) free
      ∙ ap (◌++◌ s.processed) (wake-takes s.client c request woken).0
  Step-IsFifo {s} (works m request {c} {w} {result} busy done) h =
      h
      ∙ ap (λ place. s.processed ++ (in_flight place ++ s.client.append_queue)) busy
      ∙ ap (λ q. s.processed ++ request ∷ q) (sym (append_keeps _ _ m s.client c _ w result done).0)
      ∙ sym (append_assoc s.processed (request ∷ []) c.append_queue)
  Step-IsFifo {s} (ends free woken) h =
      h ∙ ap (λ place. s.processed ++ (in_flight place ++ s.client.append_queue)) free
  Step-IsFifo stops h = h

  -- In every state that appends, the worker and a shutdown request reach from a state where it
  -- holds, the requests appended are those processed, the one that the worker has taken, if any, and
  -- those queued, in this order: none is lost, repeated or overtaken.
  pub Reach-IsFifo : {s t : System} → IsFifo s → Reach s t → IsFifo t
  Reach-IsFifo h here = h
  Reach-IsFifo h (next r st) = Step-IsFifo st (Reach-IsFifo h r)

  -- What has left the queue.
  abbrev taken : System → List WalAppendRequest
  taken s = s.processed ++ in_flight s.place

  Step-stopped :
      {s t : System}
      → Step s t
      → s.client.shutdown_requested ≡ true
      → (t.client.shutdown_requested ≡ true) × (taken t ≡ taken s)
  unfolding append_wal_record_async request_shutdown process_append_request
  Step-stopped (appends t r) h = (h, refl)
  Step-stopped {s} (fetches request {c} free woken) h =
      absurd (ground (arith, wake-takes s.client c request woken))
  Step-stopped {s} (works m request {c} {w} {result} busy done) h = (
    (append_keeps _ _ m s.client c _ w result done).1 ∙ h,
    append-nil (s.processed ++ request ∷ [])
        ∙ ap (λ place. s.processed ++ in_flight place) (sym busy),
  )
  Step-stopped {s} (ends free woken) h =
      (h, ap (λ place. s.processed ++ in_flight place) (sym free))
  Step-stopped stops h = (refl, refl)

  Reach-stopped :
      {s t : System}
      → s.client.shutdown_requested ≡ true
      → Reach s t
      → (t.client.shutdown_requested ≡ true) × (taken t ≡ taken s)
  Reach-stopped h here = (h, refl)
  Reach-stopped h (next r st) =
      let (up, same) = Reach-stopped h r in
      let (up', same') = Step-stopped st up in (up', same' ∙ same)

  -- Once a shutdown is requested no further request is taken: from a state with the request, where
  -- the appended requests are those processed, the one taken and those queued, until the worker has
  -- ended, only the request that it had taken, if any, is processed still; and the requests appended
  -- are those, followed by the ones that the destructor deletes.
  pub shutdown_drops :
      {s t : System} (w : net.World)
      → IsFifo s
      → s.client.shutdown_requested ≡ true
      → Reach s t
      → t.place ≡ ended
      → (t.processed ≡ s.processed ++ in_flight s.place)
        × (t.appended ≡ (s.processed ++ in_flight s.place) ++ (destruct t.client w).0)
  unfolding destruct
  shutdown_drops {s} {t} w h up r left =
      let rest = ap (λ place. t.processed ++ in_flight place) (sym left) ∙ (Reach-stopped up r).1 in
      let all = sym (append-nil t.processed) ∙ rest in
      (
        all,
        Reach-IsFifo h r
            ∙ ap (λ place. t.processed ++ (in_flight place ++ t.client.append_queue)) left
            ∙ ap (λ q. q ++ t.client.append_queue) all,
      )
