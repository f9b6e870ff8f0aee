-- ===== src/XdpTests/UdpPingpong.antt =====
-- xdp-tests/src/nettest/tool/udp_pingpong.rs. What the calls of a UDP socket come to is a parameter.
use xdp_rs.Prelude.{
  ℕ, zero, suc, ◌+◌, Bool, false, ◌||◌, List, [], ◌∷◌, Run, done, hang, Result, ok, err, IoError,
  os, not_found, other, context, ◌==◌, if◌then◌else◌,
}
use xdp_rs.Mmap.Meminfo.{Text, same_text}
use xdp_rs.MacByIfindex.{first_of}
use xdp_rs.XdpTests.Pinger.{ping}

-- `b"PONG"`
abbrev pub pong : Text
pong = 80 ∷ 79 ∷ 78 ∷ 71 ∷ []

-- `recv_from i` is the reply of the `i`-th call: a datagram and its sender.
pub record UdpSocket : Type 0 where
  pub bind : Result (Unit {0}) IoError
  pub connect : Result (Unit {0}) IoError
  pub set_read_timeout : Result (Unit {0}) IoError
  pub send : Text → Result (Unit {0}) IoError
  pub recv : Result Text IoError
  pub recv_from : ℕ → Result (Text × ℕ) IoError
  pub send_to : Text → ℕ → Result (Unit {0}) IoError

-- The kinds `WouldBlock` and `TimedOut`, by the error numbers EAGAIN and ETIMEDOUT.
abbrev pub is_timeout : IoError → Bool
is_timeout (os e) = e == 11 || e == 110
is_timeout (not_found message) = false
is_timeout (other message) = false
is_timeout (context message e) = false

-- The result, and the datagrams sent, oldest first.
abbrev pub Sent : Type 0
Sent = Result (Unit {0}) IoError × List (Text × ℕ)

module _ (udp : UdpSocket) where
  abbrev pub ponged : ℕ → Result (Unit {0}) IoError → Sent
  ponged src_addr (err e) = (err e, [])
  ponged src_addr (ok _) = (ok tt, (pong, src_addr) ∷ [])

  -- A packet was received; the buffer has 1024 bytes.
  abbrev pub received : Text → ℕ → Sent
  received datagram src_addr =
      if same_text (first_of 1024 datagram) ping
      then ponged src_addr (udp.send_to pong src_addr)
      else (ok tt, [])

  -- The loop, from the `i`-th call on.
  unfoldable pub ponger_loop : ℕ → ℕ → Run Sent
  ponger_loop zero i = hang
  ponger_loop (suc fuel) i = elim (udp.recv_from i) [
    | ok (datagram, src_addr) ↦ done (received datagram src_addr)
    | err e ↦
        (let rest = ponger_loop fuel (i + 1) in if is_timeout e then rest else done (ok tt, []))
  ]

  abbrev pub bound : ℕ → Result (Unit {0}) IoError → Run Sent
  bound fuel (err e) = done (err e, [])
  bound fuel (ok _) = ponger_loop fuel 0

  unfoldable pub run_ponger : ℕ → Run Sent
  run_ponger fuel = bound fuel udp.bind

  -- `run_pinger` over UDP: an answer other than PONG is only logged.
  abbrev pub answered : Result Text IoError → Result (Unit {0}) IoError
  answered (ok message) = ok tt
  answered (err e) = err e

  abbrev pub pinged : Result (Unit {0}) IoError → Result (Unit {0}) IoError
  pinged (err e) = err e
  pinged (ok _) = answered udp.recv

  abbrev pub timed : Result (Unit {0}) IoError → Result (Unit {0}) IoError
  timed (err e) = err e
  timed (ok _) = pinged (udp.send ping)

  abbrev pub connected : Result (Unit {0}) IoError → Result (Unit {0}) IoError
  connected (err e) = err e
  connected (ok _) = timed udp.set_read_timeout

  abbrev pub udp_bound : Result (Unit {0}) IoError → Result (Unit {0}) IoError
  udp_bound (err e) = err e
  udp_bound (ok _) = connected udp.connect

  unfoldable pub run_udp_pinger : Result (Unit {0}) IoError
  run_udp_pinger = udp_bound udp.bind
