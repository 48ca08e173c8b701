-- ===== src/SafekeeperClient/Connection.antt =====
-- src/safekeeper_client.cc: when a client is connected.
use mariadb_serverless_engin.Base.{
  ℕ, inl, inr, ◌≡◌, refl, true, false, not, List, some, arith, All, ℤ, pos, minus_one, is_neg,
}
use mariadb_serverless_engin.Types.{TimelineId, WalRecord}
use mariadb_serverless_engin.Text.{codes}
use mariadb_serverless_engin.Sockets.{Sockets, IsPosix, IsAddressChar}
use mariadb_serverless_engin.SafekeeperClient.{
  Client, Memory, new_client, establish_connection, close_connection, reconnect_if_needed,
  append_wal_record, create_timeline, check_availability,
}

-- A client is connected exactly if it holds a descriptor.
abbrev pub IsLinked : Client → Type 0
IsLinked c = c.connected ≡ not (is_neg c.socket_fd)

pub new_client-IsLinked : (host : List ℕ) (port : ℕ) → IsLinked (new_client host port)
unfolding new_client
new_client-IsLinked host port = refl

pub localhost_named : ¬ All IsAddressChar (codes "localhost")
localhost_named h = elim h.0 [ inl digit ↦ omega arith | inr dot ↦ omega arith ]

module _ (net : Sockets) where
  pub establish_connection-IsLinked :
      (c : Client) (w : net.World) → IsLinked c → IsLinked (establish_connection net c w).1
  unfolding establish_connection
  establish_connection-IsLinked c w h = ground arith

  pub close_connection-IsLinked :
      (c : Client) (w : net.World) → IsLinked c → IsLinked (close_connection net c w).0
  unfolding close_connection
  close_connection-IsLinked c w h = ground arith

  -- Where the host is no dotted address, no connection comes about: the attempt fails and leaves the
  -- client without one.
  pub establish_connection-dotted :
      (posix : IsPosix net) (c : Client) (w : net.World)
      → ¬ All IsAddressChar c.server_host
      → c.connected ≡ false
      → ((establish_connection net c w).0 ≡ minus_one)
        × ((establish_connection net c w).1.connected ≡ false)
        × ((establish_connection net c w).1.server_host ≡ c.server_host)
  unfolding establish_connection
  establish_connection-dotted posix c w named down =
      ground (arith, posix.dotted c.server_host named)

  append_unready :
      (t : TimelineId) (r : WalRecord) (m : Memory) (c : Client) (w : net.World)
      → (reconnect_if_needed net c w).0 ≡ minus_one
      → append_wal_record net t r m c w
        ≡ some (minus_one, (reconnect_if_needed net c w).1, (reconnect_if_needed net c w).2)
  unfolding append_wal_record
  append_unready t r m c w e = ground arith

  create_unready :
      (t : TimelineId) (c : Client) (w : net.World)
      → (reconnect_if_needed net c w).0 ≡ minus_one
      → create_timeline net t c w
        ≡ (minus_one, (reconnect_if_needed net c w).1, (reconnect_if_needed net c w).2)
  unfolding create_timeline
  create_unready t c w e = ground arith

  reconnect-dotted :
      (posix : IsPosix net) (c : Client) (w : net.World)
      → ¬ All IsAddressChar c.server_host
      → c.connected ≡ false
      → ((reconnect_if_needed net c w).0 ≡ minus_one)
        × ((reconnect_if_needed net c w).1.connected ≡ false)
        × ((reconnect_if_needed net c w).1.server_host ≡ c.server_host)
  unfolding reconnect_if_needed
  reconnect-dotted posix c w named down =
      ground (arith, establish_connection-dotted posix c w named down)

  -- The same of an append, which leaves such a client such a client.
  pub append-dotted :
      (posix : IsPosix net) (t : TimelineId) (r : WalRecord) (m : Memory) (c : Client)
      (w : net.World)
      → ¬ All IsAddressChar c.server_host
      → c.connected ≡ false
      → (c' : Client) × (w' : net.World) × (append_wal_record net t r m c w
          ≡ some (minus_one, c', w'))
        × (c'.connected ≡ false)
        × (c'.server_host ≡ c.server_host)
  append-dotted posix t r m c w named down =
      let (failed, still, host) = reconnect-dotted posix c w named down in
      (
        (reconnect_if_needed net c w).1,
        (reconnect_if_needed net c w).2,
        append_unready t r m c w failed,
        still,
        host,
      )

  -- Where `inet_pton` is as documented, a client for a named host, such as "localhost", that is
  -- not connected appends no record and creates no timeline, whatever the network does: both
  -- calls fail, and leave it without a connection.
  pub unreachable_by_name :
      (posix : IsPosix net) (t : TimelineId) (r : WalRecord) (m : Memory) (c : Client)
      (w : net.World)
      → ¬ All IsAddressChar c.server_host
      → c.connected ≡ false
      → ((c' : Client) × (w' : net.World) × (append_wal_record net t r m c w
            ≡ some (minus_one, c', w'))
          × (c'.connected ≡ false))
        × ((create_timeline net t c w).0 ≡ minus_one)
        × ((create_timeline net t c w).1.connected ≡ false)
  unreachable_by_name posix t r m c w named down =
      let (failed, still, _) = reconnect-dotted posix c w named down in
      (
        (
          (reconnect_if_needed net c w).1,
          (reconnect_if_needed net c w).2,
          append_unready t r m c w failed,
          still,
        ),
        rw (create_unready t c w failed),
        rw (create_unready t c w failed) still,
      )

  -- A client that is connected is unchanged by an append that has a defined result, also where
  -- the exchange fails, and the check for availability after it succeeds without a call of the
  -- network.
  pub connected_is_kept :
      (t : TimelineId) (r : WalRecord) (m : Memory) (c : Client) (w : net.World) {result : ℤ}
      {c' : Client} {w' : net.World}
      → c.connected ≡ true
      → append_wal_record net t r m c w ≡ some (result, c', w')
      → (c' ≡ c) × (check_availability net c' w' ≡ (pos 0, c', w'))
  unfolding append_wal_record check_availability reconnect_if_needed
  connected_is_kept t r m c w up e = ground arith
