-- ===== src/Handler/Rows.antt =====
-- src/ha_serverless.cc: the records that the row operations of a handler hand to the safekeeper.
use mariadb_serverless_engin.Base.{
  ℕ, ◌+◌, ◌%◌, ◌^◌, ◌≡◌, refl, ap, ◌∙◌, true, List, [], ◌∷◌, ◌++◌, append-nil, append_assoc, Option,
  none, some, ◌>>=◌, arith, u64, sym,
}
use mariadb_serverless_engin.Types.{TimelineId}
use mariadb_serverless_engin.Timeline.{hash_string}
use mariadb_serverless_engin.Sockets.{Sockets}
use mariadb_serverless_engin.SafekeeperClient.{Client, WalAppendRequest}
use mariadb_serverless_engin.SafekeeperClient.Worker.{new_request, append_wal_record_async}
use mariadb_serverless_engin.PageserverClient.{Curl}
use mariadb_serverless_engin.Engine.{Engine, Handler, HaResult, ok}
use mariadb_serverless_engin.Handler.{
  log_row, write_row, update_row, delete_row, open_table, initialize_timeline,
}

-- A row operation, with its buffers.
pub data RowOp : Type 0 where
  writes deletes : ℕ → RowOp
  updates : ℕ → ℕ → RowOp

-- The address that is logged.
abbrev pub logged : RowOp → ℕ
logged (writes buf) = buf
logged (deletes buf) = buf
logged (updates old_bytes new_bytes) = new_bytes

-- The requests of a list of operations: consecutive numbers, one timeline, whole rows, whose
-- length is a `uint32_t`.
abbrev pub requests : TimelineId → ℕ → ℕ → List RowOp → List WalAppendRequest
requests t lsn reclength [] = []
requests t lsn reclength (op ∷ ops) =
    new_request t (record { lsn = lsn; length = reclength % 2 ^ 32; address = logged op })
    ∷ requests t (u64 (lsn + 1)) reclength ops

abbrev pub lsn_after : ℕ → List RowOp → ℕ
lsn_after lsn [] = lsn
lsn_after lsn (op ∷ ops) = lsn_after (u64 (lsn + 1)) ops

module _ (curl : Curl) (net : Sockets) where
  pub row_op : ℕ → RowOp → Handler → Engine curl net → Option (HaResult × Handler × Engine curl net)
  row_op reclength (writes buf) h e = write_row curl net reclength buf h e
  row_op reclength (deletes buf) h e = delete_row curl net reclength buf h e
  row_op reclength (updates old_bytes new_bytes) h e =
      update_row curl net reclength old_bytes new_bytes h e

  -- The operations in turn, whose results the server takes: `none` unless each reports success.
  unfoldable pub row_ops :
      ℕ → List RowOp → Handler → Engine curl net → Option (Handler × Engine curl net)
  row_ops reclength [] h e = some (h, e)
  row_ops reclength (op ∷ ops) h e = row_op reclength op h e >>= λ (result, h', e'). elim result [
    | ok ↦ row_ops reclength ops h' e'
    | _ ↦ none
  ]

  -- The engine with the requests queued.
  abbrev pub queued : Client → List WalAppendRequest → Engine curl net → Engine curl net
  queued keeper new e = record e {
    legacy_keeper = some (record keeper { append_queue = keeper.append_queue ++ new });
  }

  pub row_op-some :
      (reclength : ℕ) (op : RowOp) (h : Handler) (e : Engine curl net) (keeper : Client)
      → h.has_keeper ≡ true
      → e.legacy_keeper ≡ some keeper
      → row_op reclength op h e
        ≡ some (
          ok,
          record h { current_lsn = u64 (h.current_lsn + 1) },
          queued keeper (requests h.current_timeline h.current_lsn reclength (op ∷ [])) e,
        )
  unfolding row_op write_row update_row delete_row log_row append_wal_record_async
  row_op-some reclength (writes buf) h e keeper set there = rw (set, there, ◌>>=◌)
  row_op-some reclength (deletes buf) h e keeper set there = rw (set, there, ◌>>=◌)
  row_op-some reclength (updates old_bytes new_bytes) h e keeper set there = rw (set, there, ◌>>=◌)

  -- Row operations of a handler with a safekeeper all have a defined result and report success,
  -- and queue one request each, in order, with consecutive sequence numbers, modulo 2 ^ 64, from
  -- the handler's on, for its timeline.
  pub rows_logged :
      (reclength : ℕ) (ops : List RowOp) (h : Handler) (e : Engine curl net) (keeper : Client)
      → h.has_keeper ≡ true
      → e.legacy_keeper ≡ some keeper
      → row_ops reclength ops h e
        ≡ some (
          record h { current_lsn = lsn_after h.current_lsn ops },
          queued keeper (requests h.current_timeline h.current_lsn reclength ops) e,
        )
  unfolding row_ops
  rows_logged reclength [] h e keeper set there =
      rw (append-nil keeper.append_queue) (rw (sym there))
  rows_logged reclength (op ∷ ops) h e keeper set there =
      let h' = record h { current_lsn = u64 (h.current_lsn + 1) } in
      let first = requests h.current_timeline h.current_lsn reclength (op ∷ []) in
      let rest = requests h.current_timeline (u64 (h.current_lsn + 1)) reclength ops in
      let keeper' = record keeper { append_queue = keeper.append_queue ++ first } in
      rw (row_op-some reclength op h e keeper set there, ◌>>=◌)
        (rows_logged reclength ops h' (queued keeper first e) keeper' set refl
          ∙ ap
              (λ q. some (
                record h { current_lsn = lsn_after (u64 (h.current_lsn + 1)) ops },
                record e { legacy_keeper = some (record keeper { append_queue = q }) },
              ))
              (append_assoc keeper.append_queue first rest))

  -- A table opened, then changed.
  pub session :
      ℕ → List ℕ → List RowOp → Handler → Engine curl net → Option (Handler × Engine curl net)
  session reclength name ops h e = row_ops reclength ops (open_table curl net name h e).1 e

  pub opened :
      (name : List ℕ) (h : Handler) (e : Engine curl net)
      → (open_table curl net name h e).1 ≡ initialize_timeline name h
  unfolding open_table
  opened name h e = ground arith

  pub session-some :
      (reclength : ℕ) (name : List ℕ) (ops : List RowOp) (h : Handler) (e : Engine curl net)
      (keeper : Client)
      → h.has_keeper ≡ true
      → e.legacy_keeper ≡ some keeper
      → let h' = initialize_timeline name h in
        session reclength name ops h e
        ≡ some (
          record h' { current_lsn = lsn_after 1 ops },
          queued keeper (requests h'.current_timeline 1 reclength ops) e,
        )
  unfolding session initialize_timeline
  session-some reclength name ops h e keeper set there =
      let h' = initialize_timeline name h in
      ap (λ g. row_ops reclength ops g e) (opened name h e)
      ∙ rows_logged reclength ops h' e keeper set there

  -- Let two handlers, or one twice, open a table and change rows, both with a safekeeper. All
  -- changes succeed, and the requests of the second session have the sequence numbers of the
  -- first again, from 1, on the same timeline, the one of the table's name.
  pub session_restarts :
      (reclength : ℕ) (name : List ℕ) (ops later : List RowOp) (h g : Handler) (e : Engine curl net)
      (keeper : Client)
      → h.has_keeper ≡ true
      → g.has_keeper ≡ true
      → e.legacy_keeper ≡ some keeper
      → let t : TimelineId = record { id = hash_string name } in
        (h' : Handler) × (g' : Handler) × (e' : Engine curl net) × (session reclength name ops h e
          ≡ some (h', e'))
        × (session reclength name later g e'
            ≡ some
                (g', queued keeper (requests t 1 reclength ops ++ requests t 1 reclength later) e))
  unfolding initialize_timeline
  session_restarts reclength name ops later h g e keeper set set' there =
      let t : TimelineId = record { id = hash_string name } in
      let first = requests t 1 reclength ops in
      let keeper' = record keeper { append_queue = keeper.append_queue ++ first } in
      let g' = record g { current_timeline = t; current_lsn = lsn_after 1 later } in
      (
        record h { current_timeline = t; current_lsn = lsn_after 1 ops },
        g',
        queued keeper first e,
        session-some reclength name ops h e keeper set there,
        session-some reclength name later g (queued keeper first e) keeper' set' refl
            ∙ ap
                (λ q.
                  some (g', record e { legacy_keeper = some (record keeper { append_queue = q }) }))
                (append_assoc keeper.append_queue first (requests t 1 reclength later)),
      )
