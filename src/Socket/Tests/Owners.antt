-- ===== src/Socket/Tests/Owners.antt =====
-- Frames that go out and come back.
use xdp_rs.Prelude.{ℕ, ◌≡◌, ◌≤◌, refl, arith, List, [], ◌∷◌, ◌++◌, some, done, ok}
use xdp_rs.Ring.Bytes.{IsFrame}
use xdp_rs.Ring.{Ring, XdpDesc, new_desc, fill_from, mut_desc_at}
use xdp_rs.Ring.Descs
use xdp_rs.Socket.{new, tx}
use xdp_rs.Socket.Seek.{tx_seek_}
use xdp_rs.Socket.Commit.{tx_commit_}
use xdp_rs.Socket.Reclaim.{tx_sought}
use xdp_rs.Socket.Submit.{committed, head, tx_commit_lem, tx_peek_lem, peeked, frame_of}
use xdp_rs.Socket.Ownership.Window.{times, window}
use xdp_rs.Socket.Ownership.Steps.{
  World, x_frame, finished, Completes, Reach, here, next, peek, commit, kernel_step, handed,
  IsOwned,
}
use xdp_rs.Socket.Ownership.Reachable.{Reach-IsOwned, available_not_held, calls_return}
use xdp_rs.Socket.Ownership.Pool.{PoolReach, pool, reach_refines}
use xdp_rs.Socket.Tests.Sockets.{build, inner, descs, addrs, tx_socket, tx_socket-IsTx}

abbrev frames : List ℕ
frames = 0 ∷ 2048 ∷ []

abbrev start : World
start = record { socket = tx_socket; held = [] }

start-IsOwned : IsOwned 1 frames start
unfolding window
start-IsOwned = record {
  valid = tx_socket-IsTx;
  word = omega arith;
  balance = refl;
  conserved = λ a. omega arith;
}

abbrev KernelStep : World → World → Type 0
KernelStep = Completes 1

are_frames : (a : ℕ) → 1 ≤ times a frames → IsFrame a
are_frames a h = ground arith

once : (a : ℕ) → times a frames ≤ 1
once a = ground arith

-- The first packet is handed to the kernel.
abbrev sent : World
sent = record { socket = committed 1 tx_socket; held = handed 1 tx_socket 1 (ok tt) ++ [] }

to_sent : Reach 1 build KernelStep start sent
to_sent = next here (commit 1 (ok tt) (tx_commit_lem tx_socket-IsTx build 1 refl))

-- The kernel has completed it.
abbrev completed : World
completed = record {
  socket = record (sent.socket) {
    u_ring = record (sent.socket.u_ring) {
      mmap = record (sent.socket.u_ring.mmap) { producer = 1; desc = 0 ∷ 0 ∷ [] };
    };
  };
  held = [];
}

completes : Completes 1 sent completed
unfolding window
completes = record {
  a = 0;
  gave = λ x. refl;
  fewer = refl;
  put = refl;
  index = refl;
  u_ptr = refl;
  u_len = refl;
  u_mask = refl;
  x_desc = refl;
  x_ptr = refl;
  x_len = refl;
  x_mask = refl;
  available = refl;
  producer = refl;
  consumer = refl;
  frames = refl;
  inner = refl;
}

to_completed : Reach 1 build KernelStep start completed
to_completed = next to_sent (kernel_step completes)

-- A frame is looked at.
abbrev looked : World
looked = record { socket = peeked 1 tx_socket 1 60; held = [] }

to_looked : Reach 1 build KernelStep start looked
to_looked = next here (
    peek 1 60 (ok (frame_of 1 tx_socket 1 60))
      (tx_peek_lem tx_socket-IsTx build 1 60 refl (omega arith)))

Reach-IsOwned_example : IsOwned 1 frames completed
Reach-IsOwned_example =
    Reach-IsOwned build KernelStep refl (λ v v' t. t) are_frames start-IsOwned to_completed

available_not_held_example :
    (times (x_frame sent.socket (head 1 sent.socket 0)) sent.held ≡ 0)
    × (times (x_frame sent.socket (head 1 sent.socket 0)) (finished 1 sent.socket) ≡ 0)
available_not_held_example =
    available_not_held build KernelStep refl (λ v v' t. t) are_frames 0 start-IsOwned to_sent once
      (omega arith)

calls_return_example :
    (tx_seek_ build completed.socket 1 ≡ done (tx_sought 1 completed.socket 1))
    × (tx_commit_ build completed.socket 1 ≡ done (ok tt, committed 1 completed.socket))
calls_return_example =
    calls_return build KernelStep refl (λ v v' t. t) are_frames 1 start-IsOwned to_completed

-- The same socket, made from a TX ring that is filled.
abbrev unfilled : Ring XdpDesc
unfilled = descs 0 (new_desc 0 0 0 ∷ new_desc 0 0 0 ∷ [])

abbrev filled : Ring XdpDesc
filled = descs 0 (new_desc 0 0 0 ∷ new_desc 2048 0 0 ∷ [])

fills : Descs.fill build unfilled 0 ≡ done filled
unfolding Descs.fill fill_from mut_desc_at
fills = refl

abbrev made : World
made = record { socket = new tx (some inner) filled (addrs 0 (0 ∷ 0 ∷ [])); held = [] }

from_made : Reach 1 build KernelStep made looked
unfolding new
from_made = to_looked

reach_refines_example : PoolReach (pool 1 start) (pool 1 completed)
reach_refines_example = reach_refines build refl are_frames start-IsOwned to_completed
