-- ===== src/Examples/Keepers.antt =====
-- Tests and instances for `SafekeeperClient`, over a network whose calls all succeed.
use mariadb_serverless_engin.Base.{
  ℕ, suc, ◌≡◌, inl, inr, refl, Bool, true, false, List, [], ◌∷◌, ◌++◌, some, arith, length, All,
  take, ℤ, pos, minus_one, leb, ◌&&◌, ◌||◌, ◌==◌, ◌≤◌, zero, Bool-cases, if◌then◌else◌,
}
use mariadb_serverless_engin.Types.{TimelineId, WalRecord}
use mariadb_serverless_engin.Text.{codes, decimal, c_string_upto, snprintf_result}
use mariadb_serverless_engin.Sockets.{Sockets, IsPosix, IsAddressChar}
use mariadb_serverless_engin.SafekeeperClient.{
  Client, Memory, new_client, establish_connection, close_connection, append_wal_record,
  serialize_append_request,
}
use mariadb_serverless_engin.SafekeeperClient.Descriptors.{
  ledger, connects, disconnects, call, calls, calls-ledger,
}
use mariadb_serverless_engin.SafekeeperClient.Messages.{
  message_loses_tail, long_record_fails, IsNonzero,
}
use mariadb_serverless_engin.SafekeeperClient.Worker.{
  System, Reach, appends, fetches, works, ends, stops, here, next, at_queue, ended, processing,
  wake, process_append_request, append_wal_record_async, new_request, request_shutdown,
  Reach-IsFifo, shutdown_drops, destruct,
}

-- The characters of a dotted address.
abbrev is_address : List ℕ → Bool
is_address [] = true
is_address (c ∷ host) = ((leb b'0' c && leb c b'9') || c == b'.') && is_address host

is_address-chars : (host : List ℕ) → is_address host ≡ true → All IsAddressChar host
is_address-chars [] h = tt
is_address-chars (c ∷ host) h = (ground arith, is_address-chars host (ground arith))

-- Every call succeeds, and every answer is "OK".
abbrev pub calm : Sockets
calm = record {
  World = Unit {0};
  socket = λ w. (pos 3, w);
  inet_pton = λ host. if is_address host then pos 1 else pos 0;
  connect_to = λ fd host port w. (pos 0, w);
  close_fd = λ fd w. w;
  send_to = λ fd text w. (pos (length text), w);
  receive = λ fd n w. (some (take n (codes "OK")), w);
}

pub length-take-le {ℓ} : {A : Type ℓ} (n : ℕ) (xs : List A) → length (take n xs) ≤ n
length-take-le zero xs = omega arith
length-take-le (suc n) [] = omega arith
length-take-le (suc n) (x ∷ xs) = omega (arith, length-take-le n xs)

pub calm-IsPosix : IsPosix calm
calm-IsPosix = record {
  dotted = λ host h. elim (Bool-cases (is_address host)) [
    | inl named ↦ absurd (h (is_address-chars host named))
    | inr other ↦ rw other
  ];
  fits = λ fd n w bytes e. ground (arith, length-take-le n (codes "OK"));
}

abbrev localhost : Client
localhost = record {
  server_host = codes "localhost";
  server_port = 5433;
  socket_fd = minus_one;
  connected = false;
  append_queue = [];
  shutdown_requested = false;
}

abbrev pub linked : Client
linked = record localhost { server_host = codes "127.0.0.1"; socket_fd = pos 3; connected = true }

abbrev pub table : TimelineId
table = record { id = 7 }

abbrev pub row : WalRecord
row = record { lsn = 1; length = 2; address = 100 }

abbrev pub rows : Memory
rows p = codes "hi"

localhost-named : ¬ All IsAddressChar (codes "localhost")
localhost-named h = ground arith

abbrev greeting : List ℕ
greeting = codes "{\"type\":\"append\",\"timeline_id\":7,\"lsn\":1,\"length\":2,\"data\":\"hi\"}"

serializes : serialize_append_request table row rows 4096 ≡ some (some greeting)
unfolding serialize_append_request c_string_upto decimal snprintf_result
serializes = refl

appends_row : append_wal_record calm table row rows linked tt ≡ some (pos 0, linked, tt)
unfolding append_wal_record serialize_append_request c_string_upto decimal snprintf_result
appends_row = refl

calls-ledger_example : ◌≡◌ {A = List ℤ} (pos 3 ∷ []) (ledger linked)
unfolding calls call new_client establish_connection close_connection
calls-ledger_example =
    calls-ledger calm (connects ∷ disconnects ∷ connects ∷ []) (codes "127.0.0.1") 5433 tt
      {c' = linked} {w' = tt} {open_fds = pos 3 ∷ []} refl

message_loses_tail_example :
    serialize_append_request table row (λ p. codes "hi" ++ 0 ∷ 1 ∷ []) 4096
    ≡ serialize_append_request table row (λ p. codes "hi" ++ 0 ∷ 9 ∷ []) 4096
message_loses_tail_example =
    message_loses_tail table row (λ p. codes "hi" ++ 0 ∷ 1 ∷ []) (λ p. codes "hi" ++ 0 ∷ 9 ∷ [])
      4096 (codes "hi") (1 ∷ []) (9 ∷ []) refl refl

-- A page of 16384 bytes whose first 4096 are `A`.
abbrev letters : ℕ → List ℕ
letters zero = []
letters (suc n) = b'A' ∷ letters n

letters-IsNonzero : (n : ℕ) → All IsNonzero (letters n)
letters-IsNonzero zero = tt
letters-IsNonzero (suc n) = (omega arith, letters-IsNonzero n)

length-letters : (n : ℕ) → length (letters n) ≡ n
length-letters zero = refl
length-letters (suc n) = omega (arith, length-letters n)

abbrev page_record : WalRecord
page_record = record { lsn = 1; length = 16384; address = 100 }

long_record_fails_example : ¬ (
    serialize_append_request table page_record (λ p. letters 4096 ++ 0 ∷ []) 4096
    ≡ some (some greeting))
long_record_fails_example =
    long_record_fails table page_record (λ p. letters 4096 ++ 0 ∷ []) 4096 (letters 4096) (0 ∷ [])
      refl (letters-IsNonzero 4096) (length-letters 4096) (omega arith) (omega arith)

abbrev idle : System calm
idle = record { client = linked; world = tt; place = at_queue; appended = []; processed = [] }

-- Two rows are queued.
abbrev queued : System calm
queued = record idle {
  client = (append_wal_record_async table row (append_wal_record_async table row linked).1).1;
  appended = new_request table row ∷ new_request table row ∷ [];
}

queues : Reach calm idle queued
queues = next (next here (appends table row)) (appends table row)

Reach-IsFifo_example : queued.appended ≡ queued.client.append_queue
Reach-IsFifo_example = Reach-IsFifo calm {s = idle} {t = queued} refl queues

-- The worker has taken the first row when the shutdown is requested.
abbrev busy : System calm
busy = record queued {
  client = record linked { append_queue = new_request table row ∷ [] };
  place = processing (new_request table row);
}

abbrev stopped : System calm
stopped = record busy { client = request_shutdown busy.client }

-- It processes it, and leaves.
abbrev done : System calm
done = record stopped { place = at_queue; processed = new_request table row ∷ [] }

abbrev left : System calm
left = record done { place = ended }

stopping : Reach calm idle stopped
unfolding wake append_wal_record_async
stopping = next (next queues (fetches (new_request table row) refl refl)) stops

leaving : Reach calm stopped left
unfolding wake request_shutdown process_append_request append_wal_record serialize_append_request
    c_string_upto decimal snprintf_result new_request
leaving = next (next here (works rows (new_request table row) refl refl)) (ends refl refl)

shutdown_drops_example :
    (left.processed ≡ new_request table row ∷ [])
    × (left.appended ≡ (new_request table row ∷ []) ++ (destruct calm left.client tt).0)
unfolding request_shutdown
shutdown_drops_example =
    shutdown_drops calm {s = stopped} {t = left} tt (Reach-IsFifo calm {s = idle} refl stopping)
      refl leaving refl
