-- ===== src/XdpTests/Pinging.antt =====
-- The XDP pinger stops, and only with an error.
use xdp_rs.Prelude.{
  ℕ, zero, suc, ◌+◌, ◌≤◌, ◌<◌, ◌≡◌, ◌≢◌, arith, Bool, if◌then◌else◌, true, false, Option, none,
  some, List, Build, Run, done, panic, fault, hang, ◌>>=◌, Result, ok, err, other, length, ltb, leb,
  ◌==◌, inl,
}
use xdp_rs.Libc.{Libc}
use xdp_rs.Ring.Const
use xdp_rs.Ring.Bytes.{desc_in, IsFrame}
use xdp_rs.Socket.{TxSocket, tx}
use xdp_rs.Socket.Kick.{Reply}
use xdp_rs.Socket.Poll.{mask, is_ready}
use xdp_rs.Socket.Send.{Bytes, Sent, send_blocking}
use xdp_rs.Socket.Blocking.{send_blocking_lem}
use xdp_rs.Socket.Sending.{packet}
use xdp_rs.Socket.Submit.{committed, head, peeked}
use xdp_rs.Socket.Waking.{reported, asleep, as_ring}
use xdp_rs.Socket.Ownership.Window.{times}
use xdp_rs.Socket.Ownership.Steps.{World, IsOwned}
use native.Mathlib.Nat.{add-zero}
use xdp_rs.Prelude.{◌∙◌, ◌++◌}
use xdp_rs.Prelude.Words.{u64_mod, add_word_fits}
use xdp_rs.Socket.{invalid_index}
use xdp_rs.Socket.Send.{send, header_len}
use xdp_rs.Socket.Peek.{tx_peek}
use xdp_rs.Socket.Valid.{IsTx}
use xdp_rs.Socket.Sending.{length-packet, overwritten}
use xdp_rs.Socket.Submit.{peek_refused}
use xdp_rs.Socket.Ownership.Window.{window}
use xdp_rs.Socket.Ownership.Steps.{x_frame}
use xdp_rs.Socket.Ownership.Exclusive.{handed-IsOwned}
use xdp_rs.Socket.Ownership.Peeking.{peeked-IsOwned, ready_in_all}
use xdp_rs.XdpTests.Meanwhile.{OnlyCompletes, Completed-IsOwned, available-Completed}
use xdp_rs.XdpTests.Pinger.{ping, Pinged, next_ping, ping_loop}

-- A round ends the loop with an error, or goes on.
next_ping-ne-ok :
    (meanwhile : ℕ → TxSocket → TxSocket) (go : TxSocket → (ℕ → ℕ) → Run Pinged) (i j : ℕ)
    (s' : TxSocket) (mem' : ℕ → ℕ) (r : Run (ℕ × Sent))
    → ((s : TxSocket) (mem : ℕ → ℕ) → go s mem ≢ done (ok tt, j, s', mem'))
    → (r >>= λ sent. next_ping meanwhile go i (sent.1)) ≢ done (ok tt, j, s', mem')
next_ping-ne-ok meanwhile go i j s' mem' (done (n, (ok x, s, mem))) rest h =
    rest (meanwhile i s) mem h
next_ping-ne-ok meanwhile go i j s' mem' (done (n, (err e, s, mem))) rest h = cc
next_ping-ne-ok meanwhile go i j s' mem' panic rest h = cc
next_ping-ne-ok meanwhile go i j s' mem' fault rest h = cc
next_ping-ne-ok meanwhile go i j s' mem' hang rest h = cc

-- With no slot available, nothing is sent.
send_blocking_empty :
    (c : Libc) (sendto : ℕ → Reply) (poll : ℕ → Result ℕ ℕ) (k fuel : ℕ) (b : Build) (s : TxSocket)
    (mem : ℕ → ℕ) (payload : Bytes) (header : Option Bytes)
    → IsTx k s
    → b.checks ≡ true
    → length (packet payload header) < u64_mod
    → s.available ≡ 0
    → send_blocking c sendto poll b fuel s mem payload header
      ≡ done (0, (err invalid_index, s, mem))
unfolding send_blocking send tx_peek
send_blocking_empty c sendto poll k fuel b s mem payload header w checks word empty =
    let total = length-packet payload header in
    let out : leb s.available 0 ≡ true = ground arith in
    rw (
      add_word_fits b u64_mod (length payload) (header_len header) (omega (arith, total)),
      peek_refused w b 0 (length payload + header_len header) checks (inl out),
      out,
    )

quiet_ok :
    (c : Libc) (o : Option ℕ) (sleeps : Bool)
    → o ≡ none
    → (if sleeps then as_ring o else ok tt) ≡ ok tt
quiet_ok c o sleeps quiet = rw quiet (ground arith)

-- A packet that was sent, in the world of frames.
sent-IsOwned :
    {k : ℕ} {all : List ℕ} {v : World} (b : Build) (n len : ℕ)
    → IsOwned k all v
    → v.socket.available ≡ suc n
    → IsOwned k all (record {
      socket = committed 1 (peeked k v.socket 0 len);
      held = window k (x_frame (peeked k v.socket 0 len)) v.socket.producer 1 ++ v.held;
    })
sent-IsOwned b n len o left = handed-IsOwned b 1 (peeked-IsOwned b o 0 len) (omega arith)

-- In every round, the wakeup is quiet, and the wait is over within its fuel.
pub record IsServed (c : Libc) (sendto : ℕ → ℕ → Reply) (poll : ℕ → ℕ → Result ℕ ℕ) (fuel : ℕ)
    : Type 0 where
  pub wakeup : (i fd : ℕ) → reported c (sendto i fd) ≡ none
  pub calls : ℕ → ℕ
  pub waits : (i a : ℕ) → a < calls i → is_ready (mask c tx) (poll i a) ≡ false
  pub ready : (i : ℕ) → is_ready (mask c tx) (poll i (calls i)) ≡ true
  pub enough : (i : ℕ) → calls i < fuel

module _ (c : Libc) (sendto : ℕ → ℕ → Reply) (poll : ℕ → ℕ → Result ℕ ℕ)
    (meanwhile : ℕ → TxSocket → TxSocket) (b : Build) (fuel : ℕ) (header : Bytes) where
  -- No run of the loop succeeds.
  pub ping_loop-ne-ok :
      (rounds i j : ℕ) (s s' : TxSocket) (mem mem' : ℕ → ℕ)
      → ping_loop c sendto poll meanwhile b fuel header rounds i s mem ≢ done (ok tt, j, s', mem')
  unfolding ping_loop
  ping_loop-ne-ok zero i j s s' mem mem' h = cc
  ping_loop-ne-ok (suc rounds) i j s s' mem mem' h =
      next_ping-ne-ok meanwhile (ping_loop c sendto poll meanwhile b fuel header rounds (i + 1)) i j
        s' mem' (send_blocking c (sendto i) (poll i) b fuel s mem ping (some header))
        (λ t m. ping_loop-ne-ok rounds (i + 1) j t s' m mem') h

  -- A packet shorter than a frame is sent for each available slot, and then the loop ends.
  pub ping_loop_lem :
      (k : ℕ) (all : List ℕ) (n rounds i : ℕ) (v : World) (mem : ℕ → ℕ)
      → IsServed c sendto poll fuel
      → OnlyCompletes k meanwhile
      → b.checks ≡ true
      → ((a : ℕ) → 1 ≤ times a all → IsFrame a)
      → length (packet ping (some header)) < Const.frame_size
      → IsOwned k all v
      → v.socket.available ≡ n
      → n < rounds
      → (s' : TxSocket) × (mem' : ℕ → ℕ) × (ping_loop c sendto poll meanwhile b fuel header rounds i
            v.socket mem
          ≡ done (err (other "Failed to write header: "), i + n, s', mem'))
  unfolding ping_loop
  ping_loop_lem k all n zero i v mem quiet honest checks frames short o left more =
      absurd (omega arith)
  ping_loop_lem k all zero (suc rounds) i v mem quiet honest checks frames short o left more = (
    v.socket,
    mem,
    rw (
      send_blocking_empty c (sendto i) (poll i) k fuel b v.socket mem ping (some header) o.valid
          checks (omega arith) left,
      add-zero,
    ),
  )
  ping_loop_lem k all (suc n) (suc rounds) i v mem quiet honest checks frames short o left more =
      let len = length (packet ping (some header)) in
      let room : leb v.socket.available 0 ≡ false = ground arith in
      let fits : ltb Const.frame_size len ≡ false = ground arith in
      let part : (len == Const.frame_size) ≡ false = ground arith in
      let first : IsFrame (desc_in v.socket.x_ring (head k v.socket 0)).addr =
        frames _ (ready_in_all b o 0 (omega arith)) in
      let sent =
        send_blocking_lem c (sendto i) (poll i) (quiet.calls i) fuel (quiet.waits i) (quiet.ready i)
          (quiet.enough i) k v.socket b mem ping (some header) o.valid checks (omega arith) first in
      let later = honest i (record {
        socket = committed 1 (peeked k v.socket 0 len);
        held = window k (x_frame (peeked k v.socket 0 len)) v.socket.producer 1 ++ v.held;
      }) in
      let rest =
        ping_loop_lem k all n rounds (i + 1) (later.0)
          (overwritten (desc_in v.socket.x_ring (head k v.socket 0)).addr
            (packet ping (some header)) mem)
          quiet honest checks frames short
          (Completed-IsOwned (sent-IsOwned b n len o left) (later.2))
          (available-Completed (later.2) ∙ omega arith) (omega arith) in
      let silent =
        quiet_ok c (reported c (sendto i v.socket.raw_fd)) (asleep c v.socket)
          (quiet.wakeup i v.socket.raw_fd) in
      let total : i + suc n ≡ i + 1 + n = omega arith in
      (rest.0, rest.1, rw (sent, room, fits, part, silent, ← later.1, total) (rest.2))
