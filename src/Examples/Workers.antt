-- ===== src/Examples/Workers.antt =====
-- Instances for the worker's loop and for the reference parser.
use mariadb_serverless_engin.Base.{
  true, if◌then◌else◌, ◌==◌, suc, none, pos, ◌++◌, ℕ, ◌≡◌, refl, List, [], ◌∷◌, some, All, length,
  arith, ◌<◌,
}
use mariadb_serverless_engin.Text.{codes, decimal, c_string_upto}
use mariadb_serverless_engin.SafekeeperClient.{
  Client, Memory, WalAppendRequest, serialize_append_request, append_text, record_data, new_client,
  set_server_address, establish_connection,
}
use mariadb_serverless_engin.SafekeeperClient.Worker.{new_request}
use mariadb_serverless_engin.SafekeeperClient.Loop.{
  waiting, worker_thread_main, Completes, IsReadable, worker-drains,
}
use mariadb_serverless_engin.SafekeeperClient.Parse.{parse_append, serialize-parse}
use mariadb_serverless_engin.SafekeeperClient.Delivery.{IsKeeping, IsLogged, TellAll}
use mariadb_serverless_engin.Types.{TimelineId}
use mariadb_serverless_engin.Timeline.{hash_string}
use mariadb_serverless_engin.Sockets.{Sockets}
use mariadb_serverless_engin.Engine.{Engine, Handler}
use mariadb_serverless_engin.Handler.{new_handler}
use mariadb_serverless_engin.Handler.Rows.{RowOp, writes, updates, requests, session}
use mariadb_serverless_engin.Handler.Delivered.{rows_arrive}
use mariadb_serverless_engin.Examples.Pages.{answering, client}
use mariadb_serverless_engin.Examples.Keepers.{calm, linked, table, row, rows}

-- Two rows wait.
abbrev busy : Client
busy = record linked { append_queue = new_request table row ∷ new_request table row ∷ [] }

abbrev memory : WalAppendRequest → Memory
memory request = rows

busy-IsReadable : All (IsReadable calm memory) busy.append_queue
unfolding new_request record_data c_string_upto
busy-IsReadable = ((codes "hi", refl), ((codes "hi", refl), tt))

worker-drains_example :
    (done : List WalAppendRequest) × (c' : Client) × (w' : calm.World) × (worker_thread_main calm
        memory 3 busy tt
      ≡ some (waiting, done, c', w'))
    × (c'.append_queue ≡ [])
    × Completes busy.append_queue done
worker-drains_example = worker-drains calm memory busy tt refl busy-IsReadable

reads_row : record_data row rows ≡ some (codes "hi")
unfolding record_data c_string_upto
reads_row = refl

text_fits : length (append_text table row (codes "hi")) < 4096
unfolding append_text decimal
text_fits = omega arith

serialize-parse_example :
    (sent : List ℕ) × (serialize_append_request table row rows 4096 ≡ some (some sent))
    × (parse_append sent
        ≡ some (record { timeline_id = 7; lsn = 1; length = 2; bytes = codes "hi" }))
serialize-parse_example =
    serialize-parse table row rows 4096 (codes "hi") (omega arith) (omega arith) (omega arith)
      reads_row text_fits (omega arith)

-- A network whose state is the list of the messages sent.
abbrev logging : Sockets
logging = record {
  World = List (List ℕ);
  socket = λ w. (pos 3, w);
  inet_pton = λ host. pos 1;
  connect_to = λ fd host port w. (pos 0, w);
  close_fd = λ fd w. w;
  send_to = λ fd text w. (pos (length text), w ++ text ∷ []);
  receive = λ fd n w. (some (codes "OK"), w);
}

unfoldable logging-IsKeeping : IsKeeping logging
logging-IsKeeping = record {
  arrived = λ w. w;
  whole = λ fd text w. refl;
  arrives = λ fd text w. refl;
  answers = λ fd w. (b'O', codes "K", refl);
  quiet = λ fd w. refl;
}

-- The client that the plugin makes is connected once it has a dotted address.
linked_by_connect :
    establish_connection logging
      (set_server_address (codes "127.0.0.1") 5433 (new_client (codes "localhost") 5433))
      []
    ≡ (pos 0, linked, [])
unfolding establish_connection set_server_address new_client
linked_by_connect = refl

abbrev logging_engine : Engine answering logging
logging_engine = record {
  pool = none;
  pages = λ n. client;
  keepers = λ n. linked;
  legacy_pages = some client;
  legacy_keeper = some linked;
  perf_stats = record {
    total_requests = 0;
    cache_hits = 0;
    network_calls = 0;
    total_latency_ms = 0;
  };
  curl_world = tt;
  net_world = [];
}

abbrev inserts : List RowOp
inserts = writes 100 ∷ updates 100 200 ∷ []

rows_arrive_example :
    let t : TimelineId = record { id = hash_string (codes "./db/t") } in
    (h' : Handler) × (e' : Engine answering logging) × (keeper' : Client) × (done : List
      WalAppendRequest)
    × (texts : List (List ℕ)) × (c' : Client) × (w' : logging.World) × (session answering logging 2
          (codes "./db/t")
          inserts
          (new_handler answering logging 0 logging_engine)
          logging_engine
        ≡ some (h', e'))
    × (e'.legacy_keeper ≡ some keeper')
    × (worker_thread_main logging (λ request. rows) (suc (length keeper'.append_queue)) keeper' []
        ≡ some (waiting, done, c', w'))
    × Completes (requests t 1 2 inserts) done
    × All IsLogged done
    × (w' ≡ texts)
    × TellAll (λ request. rows) (requests t 1 2 inserts) texts
unfolding new_handler logging-IsKeeping
rows_arrive_example =
    rows_arrive answering logging logging-IsKeeping rows 2 (codes "./db/t") inserts
      (new_handler answering logging 0 logging_engine) logging_engine linked [] refl refl
      (record { connected = refl; socket = refl }) refl refl (omega arith)
      (omega arith, (omega arith, tt))

-- The handler 6 has the timeline 6, the others 7.
abbrev writers : ℕ → Handler
writers n = record {
  has_pages = true;
  has_keeper = true;
  current_timeline = record { id = if n == 6 then 6 else 7 };
  cache = record { page_cache = []; lru_list = [] };
  current_lsn = 1;
  active_index = 0;
}

abbrev turns : List (ℕ × RowOp)
turns = (6, writes 100) ∷ (8, writes 200) ∷ (6, updates 100 200) ∷ []
