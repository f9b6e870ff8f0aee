-- ===== src/XdpTests/Pinger.antt =====
-- The loop of xdp-tests/src/toolkit/xdp_pinger.rs.
use xdp_rs.Prelude.{
  ℕ, zero, suc, ◌+◌, some, [], ◌∷◌, Build, Run, done, hang, ◌>>=◌, Result, ok, err, IoError, other,
}
use xdp_rs.Libc.{Libc}
use xdp_rs.Socket.{TxSocket}
use xdp_rs.Socket.Kick.{Reply}
use xdp_rs.Socket.Send.{Bytes, Sent, send_blocking}

-- `b"PING"`
abbrev pub ping : Bytes
ping = 80 ∷ 73 ∷ 78 ∷ 71 ∷ []

-- How the loop ends: its result, the number of packets sent, the socket, and the UMEM.
abbrev pub Pinged : Type 0
Pinged = Result (Unit {0}) IoError × ℕ × TxSocket × (ℕ → ℕ)

-- `?` after `send_blocking` in round `i`, and the sleep; `meanwhile i` is what the kernel does to the
-- shared rings until the next round, which `go` is.
abbrev pub next_ping :
    (ℕ → TxSocket → TxSocket) → (TxSocket → (ℕ → ℕ) → Run Pinged) → ℕ → Sent → Run Pinged
next_ping meanwhile go i (ok _, s, mem) = go (meanwhile i s) mem
next_ping meanwhile go i (err e, s, mem) = done (err (other "Failed to write header: "), i, s, mem)

-- In round `i`, `sendto i` and `poll i` are the replies of the system; `fuel` is that of each wait.
module _ (c : Libc) (sendto : ℕ → ℕ → Reply) (poll : ℕ → ℕ → Result ℕ ℕ)
    (meanwhile : ℕ → TxSocket → TxSocket) (b : Build) (fuel : ℕ) (header : Bytes) where
  -- The loop, from round `i` on, for at most `rounds` rounds.
  unfoldable pub ping_loop : ℕ → ℕ → TxSocket → (ℕ → ℕ) → Run Pinged
  ping_loop zero i s mem = hang
  ping_loop (suc rounds) i s mem = do
    sent ← send_blocking c (sendto i) (poll i) b fuel s mem ping (some header)
    next_ping meanwhile (ping_loop rounds (i + 1)) i (sent.1)
