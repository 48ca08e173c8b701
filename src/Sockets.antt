-- ===== src/Sockets.antt =====
-- The socket calls of the operating system, which src/safekeeper_client.cc uses and does not define:
-- a parameter of the models, with what its documentation says as `IsPosix`.
use mariadb_serverless_engin.Base.{ℕ, ◌≤◌, ◌≡◌, List, Option, some, length, All, ℤ, pos, ◌⊎◌}
use mariadb_serverless_engin.Text.Decimal.{IsDigit}

-- `World` is the state of the system. `receive fd n` gives the bytes received, at most `n`, or
-- `none` for an error; no bytes mean that the peer has closed the connection.
pub record Sockets : Type 1 where
  pub World : Type 0
  pub socket : World → ℤ × World
  pub inet_pton : List ℕ → ℤ
  pub connect_to : ℤ → List ℕ → ℕ → World → ℤ × World
  pub close_fd : ℤ → World → World
  pub send_to : ℤ → List ℕ → World → ℤ × World
  pub receive : ℤ → ℕ → World → Option (List ℕ) × World

-- A character of a dotted address.
abbrev pub IsAddressChar : ℕ → Type 0
IsAddressChar c = IsDigit c ⊎ (c ≡ b'.')

-- `inet_pton` for `AF_INET` returns 0 unless the text is a dotted decimal address, and `recv` does
-- not return more than it was asked for.
pub record IsPosix (net : Sockets) : Type 0 where
  pub dotted : (host : List ℕ) → ¬ All IsAddressChar host → net.inet_pton host ≡ pos 0
  pub fits :
      (fd : ℤ) (n : ℕ) (w : net.World) (bytes : List ℕ)
      → (net.receive fd n w).0 ≡ some bytes
      → length bytes ≤ n
