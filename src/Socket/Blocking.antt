-- ===== src/Socket/Blocking.antt =====
-- `send_blocking`: a packet is sent, and the call waits until the socket is ready.
use xdp_rs.Prelude.{
  ℕ, ◌+◌, ◌<◌, ◌≡◌, arith, true, false, Option, none, Build, done, panic, Result, ok, err, length,
  ltb, leb, ◌==◌, if◌then◌else◌, Bool-cases, Option-cases, inl, inr,
}
use xdp_rs.Prelude.Words.{u64_mod}
use xdp_rs.Libc.{Libc}
use xdp_rs.Ring.Const
use xdp_rs.Ring.Access.{IsRing}
use xdp_rs.Ring.Bytes.{desc_in, IsFrame}
use xdp_rs.Socket.{TxSocket, invalid_index, invalid_length, tx}
use xdp_rs.Socket.Kick.{Reply}
use xdp_rs.Socket.Poll.{mask, is_ready}
use xdp_rs.Socket.Send.{Bytes, send_blocking, wait_sent}
use xdp_rs.Socket.Submit.{committed, committed-IsTx, head, peeked, peeked-IsTx}
use xdp_rs.Socket.Sending.{packet, overwritten, send_lem}
use xdp_rs.Socket.Waking.{reported, calls_after, as_ring, asleep, poll_wait_lem}
use xdp_rs.Socket.Valid.{IsTx}

module _ (c : Libc) (sendto : ℕ → Reply) (poll : ℕ → Result ℕ ℕ) (j fuel : ℕ)
    (before : (a : ℕ) → a < j → is_ready (mask c tx) (poll a) ≡ false)
    (now : is_ready (mask c tx) (poll j) ≡ true) (enough : j < fuel) where
  wait_sent_lem :
      (k : ℕ) (s : TxSocket) (mem : ℕ → ℕ)
      → IsRing k s.x_ring
      → wait_sent c sendto poll fuel (ok tt, s, mem)
        ≡ done (
          if asleep c s then calls_after (reported c (sendto s.raw_fd)) (j + 1) else j + 1,
          (if asleep c s then as_ring (reported c (sendto s.raw_fd)) else ok tt, s, mem),
        )
  wait_sent_lem k s mem w =
      let waited = poll_wait_lem c sendto poll k j fuel s none w before now enough in
      elim (Bool-cases (asleep c s)) [
        | inr awake ↦ rw (waited, awake)
        | inl sleeps ↦ elim (Option-cases (reported c (sendto s.raw_fd))) [
          | inl quiet ↦ rw (waited, sleeps, quiet)
          | inr (e, loud) ↦ rw (waited, sleeps, loud)
        ]
      ]

  -- `send_blocking` on a valid TX socket, where the `j`-th reply of `poll`, counted from 0, is the first
  -- with the event of a writable socket, and the fuel is more than `j`. Where `send` is refused, so is
  -- this call, without a call of `poll`, and where `send` panics, so does this call. Any packet shorter
  -- than a frame is written to the frame of the first available descriptor and handed over, as `send` does,
  -- and stays so whatever the wakeup comes to; the call then returns with the wakeup's error and without a
  -- call of `poll`, if an error is reported, and else with success after exactly `j + 1` calls. The safety
  -- checks are compiled in, the first descriptor names a frame of the UMEM, and the packet's length is a
  -- 64-bit number.
  pub send_blocking_lem :
      (k : ℕ) (s : TxSocket) (b : Build) (mem : ℕ → ℕ) (payload : Bytes) (header : Option Bytes)
      → IsTx k s
      → b.checks ≡ true
      → length (packet payload header) < u64_mod
      → IsFrame (desc_in s.x_ring (head k s 0)).addr
      → let n = length (packet payload header) in
        let a = (desc_in s.x_ring (head k s 0)).addr in
        send_blocking c sendto poll b fuel s mem payload header ≡ (
          if leb s.available 0
          then done (0, (err invalid_index, s, mem))
          else if ltb Const.frame_size n
          then done (0, (err invalid_length, s, mem))
          else if n == Const.frame_size
          then panic
          else done (
            if asleep c s then calls_after (reported c (sendto s.raw_fd)) (j + 1) else j + 1,
            (
              if asleep c s then as_ring (reported c (sendto s.raw_fd)) else ok tt,
              committed 1 (peeked k s 0 n),
              overwritten a (packet payload header) mem,
            ),
          ))
  unfolding send_blocking
  send_blocking_lem k s b mem payload header w checks word frame =
      rw (send_lem w b checks mem payload header word frame)
        (elim (Bool-cases (leb s.available 0)) [
          | inl none_left ↦ rw none_left
          | inr room ↦ elim (Bool-cases (ltb Const.frame_size n)) [
            | inl long ↦ rw (room, long)
            | inr fits ↦ elim (Bool-cases (n == Const.frame_size)) [
              | inl whole ↦ rw (room, fits, whole)
              | inr part ↦
                  rw (room, fits, part)
                    (wait_sent_lem k (committed 1 (peeked k s 0 n))
                      (overwritten (desc_in s.x_ring (head k s 0)).addr (packet payload header) mem)
                      (committed-IsTx (peeked-IsTx w b 0 n) b 1 (ground arith)).x)
            ]
          ]
        ])
    where
      n : ℕ
      n = length (packet payload header)
