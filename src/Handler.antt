-- ===== src/Handler.antt =====
-- src/ha_serverless.cc: the methods of `ha_serverless`. An outer `none` is a call with no defined
-- result, such as a call through a null pointer.
pub mod Rows
pub mod Creation
pub mod Reading
pub mod Hits
pub mod Served
pub mod Stores
pub mod Transparent
pub mod Writes
pub mod Frame
pub mod Threads
pub mod Interleaved
pub mod Delivered
pub mod Arrivals
pub mod Answering
pub mod Supplied
pub mod Interface
use mariadb_serverless_engin.Base.{
  ◌%◌, ◌^◌, ℕ, zero, suc, ◌+◌, Bool, true, false, List, [], ◌∷◌, Option, none, some, if◌then◌else◌,
  ◌>>=◌, ◌==◌, u64, ℤ, pos, is_nat,
}
use mariadb_serverless_engin.Types.{PageId, TimelineId, WalRecord}
use mariadb_serverless_engin.Timeline.{hash_string, page_key}
use mariadb_serverless_engin.Pool.{Ptr, Side}
use mariadb_serverless_engin.Pool.Wrapper.{wrap, destruct}
use mariadb_serverless_engin.ConnectionPool.{
  ConnectionPool, Constructs, get_pageserver_connection, get_safekeeper_connection,
}
use mariadb_serverless_engin.Sockets.{Sockets}
use mariadb_serverless_engin.SafekeeperClient.{Client}
use mariadb_serverless_engin.SafekeeperClient
use mariadb_serverless_engin.SafekeeperClient.Worker.{append_wal_record_async}
use mariadb_serverless_engin.PageserverClient.{Curl, PageserverClient}
use mariadb_serverless_engin.PageserverClient
use mariadb_serverless_engin.PageCache.{
  Cache, new_cached_page, look_up, add_page, flush_all, mariadb_page_size,
}
use mariadb_serverless_engin.Engine.{
  Engine, Handler, HaResult, ok, ha_err_internal_error, ha_err_generic, ha_err_end_of_file,
  ha_err_wrong_command, ha_err_key_not_found,
}

-- What the environment decides during a call: which constructions of clients return, what other
-- threads do to a side while this one waits, the time, and how long the network takes.
pub record Moment : Type 0 where
  pub constructs : Constructs
  pub other_pages : Side → Side
  pub other_keepers : Side → Side
  pub now : ℕ
  pub latency : ℕ

unfoldable pub initialize_timeline : List ℕ → Handler → Handler
initialize_timeline name h = record h {
  current_timeline = record { id = hash_string name };
  current_lsn = 1;
}

-- Scans find no rows.
unfoldable pub rnd_init : Bool → HaResult
rnd_init scan = ok

unfoldable pub rnd_end : HaResult
rnd_end = ok

unfoldable pub rnd_next : HaResult
rnd_next = ha_err_end_of_file

unfoldable pub rnd_pos : HaResult
rnd_pos = ha_err_wrong_command

abbrev pub is_ok : HaResult → Bool
is_ok ok = true
is_ok _ = false

unfoldable pub index_init : ℕ → Handler → HaResult × Handler
index_init idx h = (ok, record h { active_index = idx })

-- The loop's body returns in its first round, so the loop is a test.
unfoldable pub index_read_map : HaResult
unfolding rnd_init rnd_next
index_read_map =
    if is_ok (rnd_init true)
    then (if is_ok rnd_next then ok else ha_err_key_not_found)
    else rnd_init true

unfoldable pub index_next : HaResult
index_next = rnd_next

unfoldable pub index_prev : HaResult
index_prev = ha_err_end_of_file

unfoldable pub index_first : HaResult
unfolding rnd_init rnd_next
index_first = if is_ok (rnd_init true) then rnd_next else ha_err_end_of_file

unfoldable pub index_last : HaResult
index_last = ha_err_end_of_file

module _ (curl : Curl) (net : Sockets) where
  -- The constructor, and `serverless_create_handler`. `index` is the active index that the server's
  -- class sets.
  unfoldable pub new_handler : ℕ → Engine curl net → Handler
  new_handler index e = record {
    has_pages = elim e.legacy_pages [ none ↦ false | some client ↦ true ];
    has_keeper = elim e.legacy_keeper [ none ↦ false | some client ↦ true ];
    current_timeline = record { id = 0 };
    cache = record { page_cache = []; lru_list = [] };
    current_lsn = 0;
    active_index = index;
  }

  -- Both checks of `open`.
  unfoldable pub ensure_connection : Engine curl net → HaResult
  ensure_connection e = elim e.pool [ none ↦ ha_err_generic | some pool ↦ ok ]

  unfoldable pub open_table : List ℕ → Handler → Engine curl net → HaResult × Handler
  unfolding initialize_timeline ensure_connection
  open_table name h e =
      let h' = initialize_timeline name h in
      if is_ok (ensure_connection e)
      then (if is_ok (ensure_connection e) then (ok, h') else (ensure_connection e, h'))
      else (ensure_connection e, h')

  -- The three row operations differ in nothing but their names. The length of a row becomes the
  -- `uint32_t` of a record.
  unfoldable pub log_row :
      ℕ → ℕ → Handler → Engine curl net → Option (HaResult × Handler × Engine curl net)
  unfolding append_wal_record_async
  log_row reclength buf h e =
      let r : WalRecord = record {
        lsn = h.current_lsn;
        length = reclength % 2 ^ 32;
        address = buf;
      } in
      let h' = record h { current_lsn = u64 (h.current_lsn + 1) } in
      if h.has_keeper
      then (e.legacy_keeper >>= λ keeper.
          let (result, keeper') = append_wal_record_async h.current_timeline r keeper in
          let e' = record e { legacy_keeper = some keeper' } in
          some ((if is_nat result 0 then ok else ha_err_generic), h', e'))
      else none

  unfoldable pub write_row :
      ℕ → ℕ → Handler → Engine curl net → Option (HaResult × Handler × Engine curl net)
  unfolding log_row
  write_row reclength buf h e = log_row reclength buf h e

  unfoldable pub update_row :
      ℕ → ℕ → ℕ → Handler → Engine curl net → Option (HaResult × Handler × Engine curl net)
  unfolding log_row
  update_row reclength old_data new_data h e = log_row reclength new_data h e

  unfoldable pub delete_row :
      ℕ → ℕ → Handler → Engine curl net → Option (HaResult × Handler × Engine curl net)
  unfolding log_row
  delete_row reclength buf h e = log_row reclength buf h e

  unfoldable pub delete_table : List ℕ → Handler → Option HaResult
  unfolding PageserverClient.delete_timeline
  delete_table name h =
      if h.has_pages
      then some (
          if is_nat (PageserverClient.delete_timeline (record { id = hash_string name })) 0
          then ok
          else ha_err_generic)
      else none

  -- The result of the deletion is dropped, and nothing is made under the new name.
  unfoldable pub rename_table : List ℕ → List ℕ → Handler → Option HaResult
  unfolding delete_table
  rename_table from to h = delete_table from h >>= λ _. some ok

  unfoldable pub set_keeper : ℕ → Client → (ℕ → Client) → ℕ → Client
  set_keeper n c keepers k = if k == n then c else keepers k

  -- The rest of `create`, from what the pool gave for the safekeeper on.
  unfoldable pub create_on_keeper :
      TimelineId → Engine curl net → Ptr × ConnectionPool → HaResult × Engine curl net
  unfolding set_keeper
  create_on_keeper t e (none, pool) = (ha_err_internal_error, record e { pool = some pool })
  create_on_keeper t e (some n, pool) =
      let (result, c, w) = SafekeeperClient.create_timeline net t (e.keepers n) e.net_world in
      (
        (if is_nat result 0 then ok else ha_err_generic),
        record e { pool = some pool; keepers = set_keeper n c e.keepers; net_world = w },
      )

  -- The rest, from what the pool gave for the pageserver on.
  unfoldable pub create_on_pageserver :
      Moment → TimelineId → Engine curl net → Ptr × ConnectionPool → HaResult × Engine curl net
  unfolding create_on_keeper
  create_on_pageserver now t e (none, pool) = (ha_err_internal_error, record e { pool = some pool })
  create_on_pageserver now t e (some n, pool) =
      let (result, w) = PageserverClient.create_timeline curl t (e.pages n) e.curl_world in
      let e' = record e { pool = some pool; curl_world = w } in
      if is_nat result 0
      then create_on_keeper t e' (get_safekeeper_connection now.constructs now.other_keepers pool)
      else (ha_err_generic, e')

  -- Neither connection is returned to the pool.
  unfoldable pub create : Moment → List ℕ → Engine curl net → Option (HaResult × Engine curl net)
  unfolding create_on_pageserver
  create now name e = e.pool >>= λ pool. some (
      create_on_pageserver now (record { id = hash_string name }) e
        (get_pageserver_connection now.constructs now.other_pages pool))
