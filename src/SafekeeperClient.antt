-- ===== src/SafekeeperClient.antt =====
-- src/safekeeper_client.h and src/safekeeper_client.cc: the connection and the requests of one
-- client, over the socket calls `net`.
pub mod Connection
pub mod Descriptors
pub mod Messages
pub mod Parse
pub mod Worker
pub mod Loop
pub mod Delivery
use mariadb_serverless_engin.Base.{
  ℕ, zero, suc, ◌+◌, ◌-◌, ◌%◌, ◌^◌, ◌<◌, Bool, true, false, not, ◌||◌, List, [], ◌∷◌, ◌++◌, Option,
  none, some, length, ltb, if◌then◌else◌, ◌>>=◌, ℤ, pos, negsuc, minus_one, is_neg, is_nat,
  is_nonpos, lt_int, to_int,
}
use mariadb_serverless_engin.Types.{TimelineId, WalRecord}
use mariadb_serverless_engin.Text.{
  codes, decimal, c_string, c_string_upto, snprintf_result, snprintf_stored,
}
use mariadb_serverless_engin.Sockets.{Sockets}

-- The bytes of the object at an address, from the address on; none for an invalid one.
abbrev pub Memory : Type 0
Memory = ℕ → List ℕ

pub record WalAppendRequest : Type 0 where
  pub timeline_id : TimelineId
  pub wal_record : WalRecord
  pub completed : Bool
  pub result : ℤ

pub record Client : Type 0 where
  pub server_host : List ℕ
  pub server_port : ℕ
  pub socket_fd : ℤ
  pub connected : Bool
  pub append_queue : List WalAppendRequest
  pub shutdown_requested : Bool

unfoldable pub set_server_address : List ℕ → ℕ → Client → Client
set_server_address host port c = record c { server_host = host; server_port = port }

-- The constructor; it also starts the worker thread (`SafekeeperClient.Worker`).
unfoldable pub new_client : List ℕ → ℕ → Client
unfolding set_server_address
new_client host port = set_server_address host port (record {
  server_host = [];
  server_port = port;
  socket_fd = minus_one;
  connected = false;
  append_queue = [];
  shutdown_requested = false;
})

-- `(int)record.length` bytes at most; as a negative precision counts as none, a length from 2 ^ 31
-- on reads to the zero byte.
unfoldable pub record_data : WalRecord → Memory → Option (List ℕ)
record_data r m =
    if ltb r.length (2 ^ 31) then c_string_upto r.length (m r.address) else c_string (m r.address)

-- The whole text that `snprintf` would write.
unfoldable pub append_text : TimelineId → WalRecord → List ℕ → List ℕ
append_text t r bytes =
    codes "{\"type\":\"append\",\"timeline_id\":"
    ++ (decimal t.id
        ++ (codes ",\"lsn\":"
            ++ (decimal r.lsn
                ++ (codes ",\"length\":"
                    ++ (decimal r.length ++ (codes ",\"data\":\"" ++ (bytes ++ codes "\"}")))))))

-- The message in the buffer, or `none` for the result -1, which is also what a negative result of
-- `snprintf` is: smaller than the size, it is returned as it is.
unfoldable pub message_of : ℕ → List ℕ → Option (List ℕ)
message_of buffer_size text = elim (snprintf_result text) [
  | pos written ↦ if lt_int (pos written) (to_int buffer_size) then some text else none
  | negsuc n ↦ none
]

-- The outer `none` is a read outside the record's object, which has no defined result.
unfoldable pub serialize_append_request :
    TimelineId → WalRecord → Memory → ℕ → Option (Option (List ℕ))
unfolding record_data append_text message_of
serialize_append_request t r m buffer_size = do
  bytes ← record_data r m
  some (message_of buffer_size (append_text t r bytes))

-- The placeholder: the committed LSN that it stores, and its result.
unfoldable pub deserialize_append_response : List ℕ → ℕ × ℤ
deserialize_append_response buffer = (1, pos 0)

unfoldable pub create_text : TimelineId → List ℕ
create_text t =
    codes "{\"type\":\"create_timeline\",\"timeline_id\":" ++ (decimal t.id ++ codes "}")

abbrev answer_result : (List ℕ → ℤ) → Option (List ℕ) → ℤ
answer_result f none = minus_one
answer_result f (some stored) = f stored

module _ (net : Sockets) where
  open net use {World, socket, inet_pton, connect_to, close_fd, send_to, receive}

  unfoldable pub establish_connection : Client → World → ℤ × Client × World
  establish_connection c w =
      let (fd, w1) = socket w in
      let opened = record c { socket_fd = fd } in
      let closed = record c { socket_fd = minus_one } in
      let (reached, w2) = connect_to fd c.server_host (c.server_port % 2 ^ 16) w1 in
      if c.connected
      then (pos 0, c, w)
      else if is_neg fd
      then (minus_one, opened, w1)
      else if is_nonpos (inet_pton c.server_host)
      then (minus_one, closed, close_fd fd w1)
      else if is_neg reached
      then (minus_one, closed, close_fd fd w2)
      else (pos 0, record opened { connected = true }, w2)

  unfoldable pub close_connection : Client → World → Client × World
  close_connection c w =
      if is_neg c.socket_fd
      then (record c { connected = false }, w)
      else (record c { socket_fd = minus_one; connected = false }, close_fd c.socket_fd w)

  unfoldable pub reconnect_if_needed : Client → World → ℤ × Client × World
  reconnect_if_needed c w = if c.connected then (pos 0, c, w) else establish_connection c w

  unfoldable pub send_message : Client → List ℕ → World → ℤ × World
  send_message c text w =
      let (sent, w') = send_to c.socket_fd text w in
      if not c.connected || is_neg c.socket_fd
      then (minus_one, w)
      else ((if is_nat sent (length text) then pos 0 else minus_one), w')

  -- The result, and the bytes that the call stores in the buffer.
  unfoldable pub received : Option (List ℕ) → ℤ × List ℕ
  received none = (minus_one, [])
  received (some []) = (minus_one, [])
  received (some (c ∷ bytes)) = (pos (length (c ∷ bytes)), (c ∷ bytes) ++ 0 ∷ [])

  unfoldable pub receive_message : Client → ℕ → World → ℤ × List ℕ × World
  unfolding received
  receive_message c buffer_size w =
      let (answer, w') = receive c.socket_fd (buffer_size - 1) w in
      let (result, stored) = received answer in
      if not c.connected || is_neg c.socket_fd then (minus_one, [], w) else (result, stored, w')

  -- A request is sent and its answer awaited: what `append_wal_record` and `create_timeline` both
  -- do once connected. `none` is their result -1.
  unfoldable pub exchange : Client → List ℕ → World → Option (List ℕ) × World
  unfolding send_message receive_message
  exchange c text w =
      let (sent, w1) = send_message c text w in
      let (result, stored, w2) = receive_message c 1024 w1 in
      if not (is_nat sent 0)
      then (none, w1)
      else if is_neg result
      then (none, w2)
      else (some stored, w2)

  -- The whole call; `none` where the serialization has no defined result.
  unfoldable pub append_wal_record :
      TimelineId → WalRecord → Memory → Client → World → Option (ℤ × Client × World)
  unfolding reconnect_if_needed exchange deserialize_append_response
  append_wal_record t r m c w =
      let (ready, c', w') = reconnect_if_needed c w in
      if not (is_nat ready 0)
      then some (minus_one, c', w')
      else serialize_append_request t r m 4096 >>= elim [
        | none ↦ some (minus_one, c', w')
        | some text ↦
            let (answer, w'') = exchange c' text w' in
            some (answer_result (λ stored. (deserialize_append_response stored).1) answer, c', w'')
      ]

  unfoldable pub create_timeline : TimelineId → Client → World → ℤ × Client × World
  unfolding reconnect_if_needed exchange create_text
  create_timeline t c w =
      let (ready, c', w') = reconnect_if_needed c w in
      let (answer, w'') = exchange c' (snprintf_stored 256 (create_text t)) w' in
      if not (is_nat ready 0)
      then (minus_one, c', w')
      else (answer_result (λ stored. pos 0) answer, c', w'')

  unfoldable pub check_availability : Client → World → ℤ × Client × World
  unfolding reconnect_if_needed
  check_availability c w = reconnect_if_needed c w

unfoldable pub get_server_status : Client → ℤ
get_server_status c = if c.connected then pos 0 else minus_one

-- The committed LSN and the result: placeholders, in the source as here.
unfoldable pub get_timeline_status : TimelineId → ℕ × ℤ
get_timeline_status t = (1, pos 0)

unfoldable pub read_wal_record : TimelineId → ℕ → ℤ
read_wal_record t lsn = minus_one
