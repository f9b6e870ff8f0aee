-- ===== src/Socket/Waking.antt =====
-- `kick`, `commit_and_kick` and `poll_wait`: when the kernel is called, and which errors come back.
use native.Mathlib.Nat.{add-zero, zero-add}
use xdp_rs.Prelude.{
  ℕ, zero, suc, ◌+◌, ◌<◌, ◌≡◌, refl, arith, Bool, true, false, Option, none, some, Build, done,
  Result, ok, err, IoError, os, ltb, ◌==◌, ◌||◌, bit_and, if◌then◌else◌, Bool-cases, Option-cases,
  inl, inr,
}
use xdp_rs.Prelude.Words.{as_u32}
use xdp_rs.Libc.{Libc}
use xdp_rs.Ring
use xdp_rs.Ring.Access.{IsRing}
use xdp_rs.Socket.{Socket, TxSocket, RingError, io, not_available}
use xdp_rs.Socket.Commit.{commit_}
use xdp_rs.Socket.Kick.{Reply, sendto_result, kick, kick_after, commit_and_kick}
use xdp_rs.Socket.Poll.{mask, is_ready, poll_loop, poll_wait}
use xdp_rs.Socket.Submit.{committed, committed-IsTx, tx_commit_lem}
use xdp_rs.Socket.Valid.{IsTx}

-- The error number that a wakeup reports: that of a failed `sendto`, unless it is one of the four that
-- mean that the kernel is busy or the link is down, or there is none.
abbrev pub reported : Libc → Reply → Option ℕ
reported c (ok _) = none
reported c (err none) = none
reported c (err (some e)) =
    if e == c.ebusy || e == c.enobufs || e == c.eagain || e == c.enetdown then none else some e

abbrev pub as_io : Option ℕ → Result (Unit {0}) IoError
as_io none = ok tt
as_io (some e) = err (os e)

abbrev pub as_ring : Option ℕ → Result (Unit {0}) RingError
as_ring none = ok tt
as_ring (some e) = err (io (os e))

-- Whether the kernel asks to be woken.
abbrev pub asleep : Libc → {t : Bool} → Socket t → Bool
asleep c s = if bit_and s.x_ring.mmap.flags c.xdp_ring_need_wakeup == 0 then false else true

sendto_result_lem : (c : Libc) (r : Reply) → sendto_result c r ≡ as_io (reported c r)
unfolding sendto_result
sendto_result_lem c (ok _) = refl
sendto_result_lem c (err none) = refl
sendto_result_lem c (err (some e)) = ground arith

-- `kick` on a socket whose ring is mapped makes the system call exactly if the ring's flags ask for a
-- wakeup, and returns an error exactly if the call was made and failed with an error number other than
-- EBUSY, ENOBUFS, EAGAIN and ENETDOWN.
pub kick_lem :
    (c : Libc) (sendto : ℕ → Reply) {t : Bool} (k : ℕ) (s : Socket t)
    → IsRing k s.x_ring
    → kick c sendto s ≡ (
        if asleep c s
        then done (as_io (reported c (sendto s.raw_fd)), true)
        else done (ok tt, false))
unfolding kick Ring.flags
kick_lem c sendto k s w =
    let mapped : (s.x_ring.mmap.mmap.ptr == 0) ≡ false = ground (arith, w.ptr) in
    rw (mapped, sendto_result_lem c (sendto s.raw_fd)) (ground arith)

kick_after_lem :
    (c : Libc) (sendto : ℕ → Reply) {t : Bool} (k : ℕ) (s : Socket t)
    → IsRing k s.x_ring
    → kick_after c sendto (ok tt, s) ≡ (
        if asleep c s
        then done (as_ring (reported c (sendto s.raw_fd)), true, s)
        else done (ok tt, false, s))
kick_after_lem c sendto k s w = elim (Bool-cases (asleep c s)) [
  | inr awake ↦ rw (kick_lem c sendto k s w, awake)
  | inl sleeps ↦ elim (Option-cases (reported c (sendto s.raw_fd))) [
    | inl quiet ↦ rw (kick_lem c sendto k s w, sleeps, quiet)
    | inr (e, loud) ↦ rw (kick_lem c sendto k s w, sleeps, loud)
  ]
]

-- `commit_and_kick` on a valid TX socket, with the safety checks compiled in: where `commit_n` is
-- refused, the kernel is not called; else the slots are handed over, whatever the wakeup then comes
-- to, the system call is made exactly if the ring's flags ask for it, and its error, if it is
-- reported, is the result.
pub commit_and_kick_lem :
    (c : Libc) (sendto : ℕ → Reply) (k : ℕ) (b : Build) (s : TxSocket) (n : ℕ)
    → IsTx k s
    → b.checks ≡ true
    → commit_and_kick c sendto b s n ≡ (
        if ltb s.available (as_u32 n)
        then done (err not_available, false, s)
        else if asleep c s
        then done (as_ring (reported c (sendto s.raw_fd)), true, committed (as_u32 n) s)
        else done (ok tt, false, committed (as_u32 n) s))
unfolding commit_and_kick commit_
commit_and_kick_lem c sendto k b s n w checks = elim (Bool-cases (ltb s.available (as_u32 n))) [
  | inl short ↦ rw (tx_commit_lem w b n checks, short)
  | inr enough ↦
      rw (tx_commit_lem w b n checks, enough)
        (kick_after_lem c sendto k (committed (as_u32 n) s)
          (committed-IsTx w b (as_u32 n) (ground arith)).x)
]

-- The loop returns with the first call that is ready, and has made no other call after it.
poll_loop_lem :
    (poll : ℕ → Result ℕ ℕ) (m j fuel i : ℕ)
    → ((a : ℕ) → a < j → is_ready m (poll (i + a)) ≡ false)
    → is_ready m (poll (i + j)) ≡ true
    → j < fuel
    → poll_loop poll m fuel i ≡ done (i + j + 1)
unfolding poll_loop
poll_loop_lem poll m j zero i before now h = absurd (omega arith)
poll_loop_lem poll m zero (suc fuel) i before now h =
    let now' = rw add-zero at now in rw (now', add-zero)
poll_loop_lem poll m (suc j) (suc fuel) i before now h =
    let first = rw add-zero at (before 0 (omega arith)) in
    let shift : (a : ℕ) → i + suc a ≡ i + 1 + a = λ a. omega arith in
    rw (first, shift j)
      (poll_loop_lem poll m j fuel (i + 1) (λ a ha. rw (shift a) at (before (suc a) (omega arith)))
        (rw (shift j) at now) (omega arith))

-- The number of calls of `poll` in a wait that `n` calls end: none if the wakeup reports an error.
abbrev pub calls_after : Option ℕ → ℕ → ℕ
calls_after none n = n
calls_after (some e) n = 0

-- `poll_wait` on a socket whose ring is mapped, where the `j`-th reply of `poll`, counted from 0, is the
-- first with the awaited event: it returns without a call of `poll` and with the wakeup's error, if one is
-- reported, and else with success after exactly `j + 1` calls, however many of the replies before were
-- errors, and whatever the time limit. The fuel is more than `j`.
pub poll_wait_lem :
    (c : Libc) (sendto : ℕ → Reply) (poll : ℕ → Result ℕ ℕ) {t : Bool} (k j fuel : ℕ) (s : Socket t)
    (timeout : Option ℕ)
    → IsRing k s.x_ring
    → ((a : ℕ) → a < j → is_ready (mask c t) (poll a) ≡ false)
    → is_ready (mask c t) (poll j) ≡ true
    → j < fuel
    → poll_wait c sendto poll fuel s timeout ≡ (
        if asleep c s
        then done (
          as_io (reported c (sendto s.raw_fd)),
          calls_after (reported c (sendto s.raw_fd)) (j + 1),
        )
        else done (ok tt, j + 1))
unfolding poll_wait
poll_wait_lem c sendto poll {t} k j fuel s timeout w before now h =
    let loop : poll_loop poll (mask c t) fuel 0 ≡ done (j + 1) = rw zero-add at (
      poll_loop_lem poll (mask c t) j fuel 0 (λ a ha. rw (zero-add) (before a ha)) (rw zero-add now)
        h) in
    elim (Bool-cases (asleep c s)) [
      | inr awake ↦ rw (kick_lem c sendto k s w, awake, loop)
      | inl sleeps ↦ elim (Option-cases (reported c (sendto s.raw_fd))) [
        | inl quiet ↦ rw (kick_lem c sendto k s w, sleeps, quiet, loop)
        | inr (e, loud) ↦ rw (kick_lem c sendto k s w, sleeps, loud)
      ]
    ]
