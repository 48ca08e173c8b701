-- ===== src/Handler/Interleaved.antt =====
-- src/ha_serverless.cc: row operations of many handlers, in any order, on the one safekeeper client.
use mariadb_serverless_engin.Base.{
  ℕ, ◌+◌, ◌≡◌, refl, ap, ◌∙◌, true, false, List, [], ◌∷◌, ◌++◌, append-nil, append_assoc, Option,
  none, some, ◌>>=◌, arith, u64, sym, ◌==◌, ==_iff, ==_refl, if◌then◌else◌, Bool-cases, inl, inr,
}
use mariadb_serverless_engin.Types.{TimelineId}
use mariadb_serverless_engin.Sockets.{Sockets}
use mariadb_serverless_engin.SafekeeperClient.{Client, WalAppendRequest}
use mariadb_serverless_engin.SafekeeperClient.Worker.{new_request}
use mariadb_serverless_engin.PageserverClient.{Curl}
use mariadb_serverless_engin.Engine.{Engine, Handler, ok}
use mariadb_serverless_engin.Handler.Rows.{RowOp, requests, row_op, row_op-some, queued}

-- The operations of one handler among those of all.
abbrev pub ops_of : ℕ → List (ℕ × RowOp) → List RowOp
ops_of i [] = []
ops_of i ((j, op) ∷ schedule) = let rest = ops_of i schedule in if j == i then op ∷ rest else rest

-- The requests for one timeline.
abbrev pub of_timeline : ℕ → List WalAppendRequest → List WalAppendRequest
of_timeline t [] = []
of_timeline t (request ∷ queue) =
    let rest = of_timeline t queue in if request.timeline_id.id == t then request ∷ rest else rest

abbrev pub set_handler : ℕ → Handler → (ℕ → Handler) → ℕ → Handler
set_handler j h hs i = if i == j then h else hs i

module _ (curl : Curl) (net : Sockets) where
  -- The operations in turn, each by its handler: `none` unless each reports success.
  unfoldable pub rows_by :
      ℕ
      → List (ℕ × RowOp)
      → (ℕ → Handler)
      → Engine curl net
      → Option ((ℕ → Handler) × Engine curl net)
  rows_by reclength [] hs e = some (hs, e)
  rows_by reclength ((j, op) ∷ schedule) hs e =
      row_op curl net reclength op (hs j) e >>= λ (result, h, e'). elim result [
        | ok ↦ rows_by reclength schedule (set_handler j h hs) e'
        | _ ↦ none
      ]

  -- Where the operations end, with what they queued.
  record IsQueued (i reclength : ℕ) (schedule : List (ℕ × RowOp)) (h : Handler) (keeper : Client)
      (e : Engine curl net) (r : Option ((ℕ → Handler) × Engine curl net)) : Type 0 where
    handlers : ℕ → Handler
    new : List WalAppendRequest
    returned : r ≡ some (handlers, queued curl net keeper new e)
    own :
        of_timeline h.current_timeline.id new
        ≡ requests h.current_timeline h.current_lsn reclength (ops_of i schedule)

  set_handler-kept :
      (j k : ℕ) (h : Handler) (hs : ℕ → Handler)
      → h.has_keeper ≡ (hs j).has_keeper
      → h.current_timeline ≡ (hs j).current_timeline
      → ((set_handler j h hs k).has_keeper ≡ (hs k).has_keeper)
        × ((set_handler j h hs k).current_timeline ≡ (hs k).current_timeline)
  set_handler-kept j k h hs a b = elim (Bool-cases (k == j)) [
    | inl same ↦
        let e : hs j ≡ hs k = ap hs (sym ((==_iff k j).0 same)) in
        rw same
          (a ∙ ap (λ (g : Handler). g.has_keeper) e, b ∙ ap (λ (g : Handler). g.current_timeline) e)
    | inr other ↦ rw other (refl, refl)
  ]

  apart_indices : (j i : ℕ) → (j == i) ≡ false → (i == j) ≡ false
  apart_indices j i h = ground arith

  abbrev pub stepped : Handler → Handler
  stepped h = record h { current_lsn = u64 (h.current_lsn + 1) }

  abbrev pub one_request : ℕ → RowOp → Handler → List WalAppendRequest
  one_request reclength op h = requests h.current_timeline h.current_lsn reclength (op ∷ [])

  abbrev pub after : ℕ → RowOp → Handler → Client → Client
  after reclength op h keeper = record keeper {
    append_queue = keeper.append_queue ++ one_request reclength op h;
  }

  -- One operation in front of the others: what it queued comes first.
  pub rows_by-step :
      (j reclength : ℕ) (op : RowOp) (schedule : List (ℕ × RowOp)) (hs handlers : ℕ → Handler)
      (new : List WalAppendRequest) (keeper : Client) (e : Engine curl net)
      → (hs j).has_keeper ≡ true
      → e.legacy_keeper ≡ some keeper
      → rows_by reclength schedule
          (set_handler j (stepped (hs j)) hs)
          (queued curl net keeper (one_request reclength op (hs j)) e)
        ≡ some (
          handlers,
          queued curl net
              (after reclength op (hs j) keeper)
              new
              (queued curl net keeper (one_request reclength op (hs j)) e),
        )
      → rows_by reclength ((j, op) ∷ schedule) hs e
        ≡ some (handlers, queued curl net keeper (one_request reclength op (hs j) ++ new) e)
  unfolding rows_by
  rows_by-step j reclength op schedule hs handlers new keeper e set there rest =
      rw (row_op-some curl net reclength op (hs j) e keeper set there, ◌>>=◌)
        (rest
          ∙ ap
              (λ q.
                some (
                  handlers,
                  record e { legacy_keeper = some (record keeper { append_queue = q }) },
                ))
              (append_assoc keeper.append_queue (one_request reclength op (hs j)) new))

  step-IsQueued :
      (i j reclength : ℕ) (op : RowOp) (schedule : List (ℕ × RowOp)) (hs : ℕ → Handler)
      (h h' : Handler) (keeper : Client) (e : Engine curl net)
      → (hs j).has_keeper ≡ true
      → e.legacy_keeper ≡ some keeper
      → (rest : IsQueued i reclength schedule h'
          (after reclength op (hs j) keeper)
          (queued curl net keeper (one_request reclength op (hs j)) e)
          (rows_by reclength schedule
            (set_handler j (stepped (hs j)) hs)
            (queued curl net keeper (one_request reclength op (hs j)) e)))
      → of_timeline h.current_timeline.id (one_request reclength op (hs j) ++ rest.new)
        ≡ requests h.current_timeline h.current_lsn reclength (ops_of i ((j, op) ∷ schedule))
      → IsQueued i reclength
          ((j, op) ∷ schedule)
          h
          keeper
          e
          (rows_by reclength ((j, op) ∷ schedule) hs e)
  unfolding rows_by
  step-IsQueued i j reclength op schedule hs h h' keeper e set there rest own = record {
    handlers = rest.handlers;
    new = one_request reclength op (hs j) ++ rest.new;
    returned =
        rows_by-step j reclength op schedule hs rest.handlers rest.new keeper e set there
          rest.returned;
    own = own;
  }

  own_first :
      (i j reclength : ℕ) (op : RowOp) (schedule : List (ℕ × RowOp)) (g h : Handler)
      (new : List WalAppendRequest)
      → g ≡ h
      → (j == i) ≡ true
      → of_timeline h.current_timeline.id new
        ≡ requests h.current_timeline (u64 (h.current_lsn + 1)) reclength (ops_of i schedule)
      → of_timeline h.current_timeline.id (one_request reclength op g ++ new)
        ≡ requests h.current_timeline h.current_lsn reclength (ops_of i ((j, op) ∷ schedule))
  unfolding new_request
  own_first i j reclength op schedule g h new same own rest =
      rw (same, own, ==_refl h.current_timeline.id, rest) refl

  rows_by-IsQueued :
      (i reclength : ℕ) (schedule : List (ℕ × RowOp)) (hs : ℕ → Handler) (h : Handler)
      (keeper : Client) (e : Engine curl net)
      → hs i ≡ h
      → ((j : ℕ) → (hs j).has_keeper ≡ true)
      → ((j : ℕ) → (hs j).current_timeline.id ≡ h.current_timeline.id → j ≡ i)
      → e.legacy_keeper ≡ some keeper
      → IsQueued i reclength schedule h keeper e (rows_by reclength schedule hs e)
  unfolding rows_by new_request
  rows_by-IsQueued i reclength [] hs h keeper e mine set alone there = record {
    handlers = hs;
    new = [];
    returned = rw (append-nil keeper.append_queue) (rw (sym there));
    own = refl;
  }
  rows_by-IsQueued i reclength ((j, op) ∷ schedule) hs h keeper e mine set alone there =
      let hs' = set_handler j (stepped (hs j)) hs in
      let kept = λ (k : ℕ). set_handler-kept j k (stepped (hs j)) hs refl refl in
      let set' : (k : ℕ) → (hs' k).has_keeper ≡ true = λ k. (kept k).0 ∙ set k in
      let alone' : (k : ℕ) → (hs' k).current_timeline.id ≡ h.current_timeline.id → k ≡ i =
        λ k same. alone k (ap (λ (t : TimelineId). t.id) (sym (kept k).1) ∙ same) in
      let e' = queued curl net keeper (one_request reclength op (hs j)) e in
      let keeper' = after reclength op (hs j) keeper in
      elim (Bool-cases (j == i)) [
        | inl own ↦
            let same : hs j ≡ h = ap hs ((==_iff j i).0 own) ∙ mine in
            let rest =
              rows_by-IsQueued i reclength schedule hs' (stepped h) keeper' e'
                (rw (sym ((==_iff j i).0 own), ==_refl j) (ap stepped same)) set' alone' refl in
            step-IsQueued i j reclength op schedule hs h (stepped h) keeper e (set j) there rest
              (own_first i j reclength op schedule (hs j) h rest.new same own rest.own)
        | inr other ↦
            let apart : ((hs j).current_timeline.id == h.current_timeline.id) ≡ false = ground (
              arith,
              alone j,
              ==_iff (hs j).current_timeline.id h.current_timeline.id,
              ==_iff j i,
              other,
            ) in
            let rest =
              rows_by-IsQueued i reclength schedule hs' h keeper' e'
                (rw (apart_indices j i other) mine) set' alone' refl in
            step-IsQueued i j reclength op schedule hs h h keeper e (set j) there rest
              (rw (apart, other) rest.own)
      ]

  -- Let many handlers have a safekeeper, all the same client, and let no other one have the timeline
  -- of handler i. In whatever order they change rows, every change reports success, and of the
  -- requests that are queued those for that timeline are the ones of handler i's operations, in
  -- their order, with consecutive sequence numbers, modulo 2 ^ 64, from the handler's on.
  pub rows_by-requests :
      (i reclength : ℕ) (schedule : List (ℕ × RowOp)) (hs : ℕ → Handler) (keeper : Client)
      (e : Engine curl net)
      → ((j : ℕ) → (hs j).has_keeper ≡ true)
      → ((j : ℕ) → (hs j).current_timeline.id ≡ (hs i).current_timeline.id → j ≡ i)
      → e.legacy_keeper ≡ some keeper
      → (hs' : ℕ → Handler) × (new : List WalAppendRequest) × (rows_by reclength schedule hs e
          ≡ some (hs', queued curl net keeper new e))
        × (of_timeline (hs i).current_timeline.id new
            ≡ requests (hs i).current_timeline (hs i).current_lsn reclength (ops_of i schedule))
  rows_by-requests i reclength schedule hs keeper e set alone there =
      let r = rows_by-IsQueued i reclength schedule hs (hs i) keeper e refl set alone there in
      (r.handlers, r.new, r.returned, r.own)
