-- ===== src/XdpTests/Sender.antt =====
-- The loop of xdp-tests/examples/xdp_sender.rs.
use xdp_rs.Prelude.{
  ℕ, zero, suc, ◌+◌, ◌-◌, min, Option, none, some, List, [], ◌∷◌, Build, Run, done, panic, Result,
  ok, err, IoError, other, add_word, ◌>>=◌, length, ◌==◌, if◌then◌else◌,
}
use xdp_rs.Prelude.Words.{u64_mod}
use xdp_rs.Libc.{Libc}
use xdp_rs.Ring.Descs.{Slice}
use xdp_rs.Socket.{TxSocket, RingError}
use xdp_rs.Socket.Api.{commit}
use xdp_rs.Socket.Kick.{Reply, Kicked, kick}
use xdp_rs.Socket.Peek.{tx_seek_and_peek}
use xdp_rs.Socket.Send.{Bytes, write}
use xdp_rs.MacByIfindex.{first_of}
use xdp_rs.Packet.Header.{Fields, Written}

-- The UMEM's bytes.
abbrev pub Memory : Type 0
Memory = ℕ → ℕ

-- `write_all` of the standard library on a slice, for each chunk: what fits is copied, and a chunk that
-- does not fit is an error.
abbrev pub write_chunks :
    List (List ℕ) → Slice → Result (Unit {0}) IoError → Memory → Result (Unit {0}) IoError × Memory
write_chunks [] buf result mem = (result, mem)
write_chunks (chunk ∷ chunks) buf result mem =
    let n = min (length chunk) buf.len in
    let mem' = write buf.start (first_of n chunk) mem in
    let rest =
      write_chunks chunks (record { start = buf.start + n; len = buf.len - n }) result mem' in
    if n == length chunk then rest else (err (other "failed to write whole buffer"), mem')

-- How a round ends.
abbrev pub Round : Type 0
Round = Result (Unit {0}) IoError × TxSocket × Memory

-- In round `i`, `sendto i` is the reply of the system to a wakeup, and `meanwhile i` is what the kernel
-- does to the shared rings during the sleep; `fields` is what the builder is given, by the next hop's MAC
-- address.
module _ (c : Libc) (builder : Fields → List ℕ → Written) (sendto : ℕ → ℕ → Reply)
    (meanwhile : ℕ → TxSocket → TxSocket) (b : Build) (fields : List ℕ → Fields)
    (next_mac : Option (List ℕ)) (text : Bytes) where
  abbrev pub kicked : TxSocket → Memory → Kicked → Run Round
  kicked s mem (r, called) = done (r, s, mem)

  -- `kick()?` after `commit()?`
  abbrev pub committed_to : ℕ → Memory → Result (Unit {0}) RingError × TxSocket → Run Round
  committed_to i mem (err e, s) = done (err (other "Failed to commit buffer in RX ring: "), s, mem)
  committed_to i mem (ok _, s) = do k ← kick c (sendto i) s; kicked s mem k

  abbrev pub written_to : ℕ → TxSocket → Result (Unit {0}) IoError × Memory → Run Round
  written_to i s (err e, mem) = done (err (other "Error writing packet header: "), s, mem)
  written_to i s (ok _, mem) = do r ← commit b s; committed_to i mem r

  -- `next_hop.mac_addr.unwrap()`, and the builder's `write` to the buffer
  abbrev pub addressed_to : ℕ → Memory → TxSocket → Slice → Option (List ℕ) → Run Round
  addressed_to i mem s bf none = panic
  addressed_to i mem s bf (some mac) = written_to i s (
      write_chunks ((builder (fields mac) text).chunks) bf ((builder (fields mac) text).result) mem)

  abbrev pub peeked_at : ℕ → Memory → Result Slice RingError × TxSocket → Run Round
  peeked_at i mem (err e, s) = done (err (other "Failed to seek and peek: "), s, mem)
  peeked_at i mem (ok bf, s) = addressed_to i mem s bf next_mac

  -- The body of the loop.
  unfoldable pub send_packet : ℕ → TxSocket → Memory → Run Round
  send_packet i s mem = do
    n ← add_word b u64_mod 42 (length text)
    peeked ← tx_seek_and_peek b s n
    peeked_at i mem peeked

  abbrev pub next_packet : (TxSocket → Memory → Run Round) → ℕ → Round → Run Round
  next_packet go i (ok _, s, mem) = go (meanwhile i s) mem
  next_packet go i (err e, s, mem) = done (err e, s, mem)

  -- The loop, with `count` packets to go.
  unfoldable pub send_packets : ℕ → ℕ → TxSocket → Memory → Run Round
  send_packets zero i s mem = done (ok tt, s, mem)
  send_packets (suc count) i s mem = do
    r ← send_packet i s mem
    next_packet (send_packets count (i + 1)) i r
