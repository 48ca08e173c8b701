-- ===== src/SafekeeperClient/Descriptors.antt =====
-- src/safekeeper_client.cc: the client leaks no descriptor. The socket calls are watched by a
-- ledger of the descriptors that are open.
use mariadb_serverless_engin.Base.{
  ℕ, ◌≡◌, refl, subst, inl, inr, Bool, true, false, List, [], ◌∷◌, Option, none, some, arith,
  Option-cases, if◌then◌else◌, ◌>>=◌, ◌==◌, ==_refl, ℤ, pos, negsuc, is_neg,
}
use mariadb_serverless_engin.Types.{TimelineId, WalRecord}
use mariadb_serverless_engin.Text.{snprintf_stored}
use mariadb_serverless_engin.Sockets.{Sockets}
use mariadb_serverless_engin.SafekeeperClient.{
  Client, Memory, new_client, establish_connection, close_connection, reconnect_if_needed,
  append_wal_record, create_timeline, exchange, create_text,
}
use mariadb_serverless_engin.SafekeeperClient.Connection.{IsLinked}

abbrev pub int_eq : ℤ → ℤ → Bool
int_eq (pos m) (pos n) = m == n
int_eq (negsuc m) (negsuc n) = m == n
int_eq (pos m) (negsuc n) = false
int_eq (negsuc m) (pos n) = false

pub int_eq_refl : (x : ℤ) → int_eq x x ≡ true
int_eq_refl (pos n) = ==_refl n
int_eq_refl (negsuc n) = ==_refl n

-- The ledger without one entry of a descriptor.
abbrev pub strike : ℤ → List ℤ → List ℤ
strike fd [] = []
strike fd (x ∷ xs) = if int_eq x fd then xs else x ∷ strike fd xs

-- The same calls over a world with a ledger: `socket` enters the descriptor that it returns, and
-- `close` strikes one out.
abbrev pub watched : Sockets → Sockets
watched net = record {
  World = net.World × List ℤ;
  socket = λ w. let (fd, w') = net.socket w.0 in (fd, (w', if is_neg fd then w.1 else fd ∷ w.1));
  inet_pton = net.inet_pton;
  connect_to =
      λ fd host port w. let (result, w') = net.connect_to fd host port w.0 in (result, (w', w.1));
  close_fd = λ fd w. (net.close_fd fd w.0, strike fd w.1);
  send_to = λ fd text w. let (sent, w') = net.send_to fd text w.0 in (sent, (w', w.1));
  receive = λ fd n w. let (answer, w') = net.receive fd n w.0 in (answer, (w', w.1));
}

-- What should be open: the descriptor of a client that is connected, and no other.
abbrev pub ledger : Client → List ℤ
ledger c = if c.connected then c.socket_fd ∷ [] else []

-- The calls that a user of a client makes.
pub data Call : Type 0 where
  connects disconnects : Call
  appends : TimelineId → WalRecord → Memory → Call
  creates : TimelineId → Call

module _ (net : Sockets) where
  unfoldable pub call : Call → Client → net.World → Option (Client × net.World)
  call connects c w = let (_, c', w') = establish_connection net c w in some (c', w')
  call disconnects c w = some (close_connection net c w)
  call (appends t r m) c w = append_wal_record net t r m c w >>= λ done. some (done.1, done.2)
  call (creates t) c w = let (_, c', w') = create_timeline net t c w in some (c', w')

  unfoldable pub calls : List Call → Client → net.World → Option (Client × net.World)
  calls [] c w = some (c, w)
  calls (k ∷ ks) c w = call k c w >>= λ next. calls ks next.0 next.1

module _ (net : Sockets) where
  abbrev IsTidy : Client → net.World × List ℤ → Type 0
  IsTidy c w = IsLinked c × (w.1 ≡ ledger c)

  establish_connection-IsTidy :
      (c : Client) (w : net.World × List ℤ)
      → IsTidy c w
      → let (_, c', w') = establish_connection (watched net) c w in IsTidy c' w'
  unfolding establish_connection
  establish_connection-IsTidy c w h = ground (arith, int_eq_refl (net.socket w.0).0)

  close_connection-IsTidy :
      (c : Client) (w : net.World × List ℤ)
      → IsTidy c w
      → let (c', w') = close_connection (watched net) c w in IsTidy c' w'
  unfolding close_connection
  close_connection-IsTidy c w h = ground (arith, int_eq_refl c.socket_fd)

  reconnect_if_needed-IsTidy :
      (c : Client) (w : net.World × List ℤ)
      → IsTidy c w
      → let (_, c', w') = reconnect_if_needed (watched net) c w in IsTidy c' w'
  unfolding reconnect_if_needed
  reconnect_if_needed-IsTidy c w h = ground (arith, establish_connection-IsTidy c w h)

  exchange_ledger :
      (c : Client) (text : List ℕ) (w : net.World × List ℤ)
      → (exchange (watched net) c text w).1.1 ≡ w.1
  unfolding exchange
  exchange_ledger c text w = ground arith

  exchanged :
      (c : Client) (w : net.World × List ℤ) (text : List ℕ)
      → let (_, c', w') = reconnect_if_needed (watched net) c w in
        (exchange (watched net) c' text w').1.1 ≡ w'.1
  exchanged c w text =
      let (_, c', w') = reconnect_if_needed (watched net) c w in exchange_ledger c' text w'

  abbrev AllTidy : Option (Client × (net.World × List ℤ)) → Type 0
  AllTidy none = Unit
  AllTidy (some (c, w)) = IsTidy c w

  append-AllTidy :
      (t : TimelineId) (r : WalRecord) (m : Memory) (c : Client) (w : net.World × List ℤ)
      → IsTidy c w
      → AllTidy (call (watched net) (appends t r m) c w)
  unfolding call append_wal_record
  append-AllTidy t r m c w h = ground (arith, reconnect_if_needed-IsTidy c w h, exchanged c w)

  call-AllTidy :
      (k : Call) (c : Client) (w : net.World × List ℤ)
      → IsTidy c w
      → AllTidy (call (watched net) k c w)
  unfolding call create_timeline
  call-AllTidy connects c w h = establish_connection-IsTidy c w h
  call-AllTidy disconnects c w h = close_connection-IsTidy c w h
  call-AllTidy (appends t r m) c w h = append-AllTidy t r m c w h
  call-AllTidy (creates t) c w h =
      ground (
        arith,
        reconnect_if_needed-IsTidy c w h,
        exchanged c w (snprintf_stored 256 (create_text t)),
      )

  calls-AllTidy :
      (ks : List Call) (c : Client) (w : net.World × List ℤ)
      → IsTidy c w
      → AllTidy (calls (watched net) ks c w)
  unfolding calls
  calls-AllTidy [] c w h = h
  calls-AllTidy (k ∷ ks) c w h = elim (Option-cases (call (watched net) k c w)) [
    | inl e ↦ rw (e, ◌>>=◌) tt
    | inr ((c', w'), e) ↦
        rw (e, ◌>>=◌) (calls-AllTidy ks c' w' (subst AllTidy e (call-AllTidy k c w h)))
  ]

  -- After any calls on a new client that have a defined result, the descriptors that the client
  -- opened and did not close are the one that it holds, if it is connected, and none if it is
  -- not: failed attempts close what they open.
  pub calls-ledger :
      (ks : List Call) (host : List ℕ) (port : ℕ) (w : net.World) {c' : Client} {w' : net.World}
      {open_fds : List ℤ}
      → calls (watched net) ks (new_client host port) (w, []) ≡ some (c', (w', open_fds))
      → open_fds ≡ ledger c'
  unfolding new_client
  calls-ledger ks host port w e =
      (subst AllTidy e (calls-AllTidy ks (new_client host port) (w, []) (refl, refl))).1
