-- ===== src/Create/Tests/Creations.antt =====
-- Sockets made, used and dropped on such a system, and a creation that fails.
use xdp_rs.Prelude.{
  ℕ, ◌+◌, ◌*◌, ◌≡◌, ◌≢◌, refl, arith, [], ◌∷◌, false, some, none, done, ok, err, os, if◌then◌else◌,
  ltb, get_elem?,
}
use xdp_rs.Mmap.{HugePageInfo}
use xdp_rs.Ring.Const
use xdp_rs.System.{Kernel, Process}
use xdp_rs.Create.Balance.{IsSane}
use xdp_rs.Create.{
  tx, create_socket, create_tx_socket, create_rx_socket, create_bi_socket, setup_umem, open_socket,
  set_sizes, ring_offsets,
}
use xdp_rs.Create.Refused.{create_rx_refused}
use xdp_rs.Socket.Submit.{head}
use xdp_rs.Socket.Ownership.Steps.{x_frame, Completes, here}
use xdp_rs.Prelude.{◌≢◌}
use xdp_rs.Create.Dropped.{HoldsPair}
use xdp_rs.Create.Counted.{created_counts_all}
use xdp_rs.Socket.Api
use xdp_rs.Create.Pair.{InTurn, pair_dropped}
use xdp_rs.Create.Apart.{created_available_differ, pair_apart}
use xdp_rs.Create.Made.{create_tx_lem}
use xdp_rs.Create.Both.{create_bi_lem}
use xdp_rs.Create.Balance.{held}
use xdp_rs.Create.Released.{create_socket_released}
use xdp_rs.Mmap
use xdp_rs.Mmap.{aligned}
use xdp_rs.Mmap.Owned.{release, drop, drop_mmap}
use xdp_rs.Ring.Mapping.{set_size}
use xdp_rs.System.{socket, map_umem, register_umem, set_ring_size, unmap, close}
use xdp_rs.Socket.{TxSocket, RxSocket}
use xdp_rs.Socket.Valid.{IsRx}
use xdp_rs.Socket.Fresh.{IsNew}
use xdp_rs.Socket.Receive.{unread}
use xdp_rs.Socket.Ownership.Steps.{IsOwned}
use xdp_rs.Socket.Ownership.Start.{first_frames}
use xdp_rs.Create.Tests.Systems.{build, libc, info, kernel, start, numbered, sane, grants, refuses}

create_tx_lem_example :
    (t : TxSocket) × (p' : Process) × (create_tx_socket libc kernel (ok info) build 2 0 none start
      ≡ done (ok t, p'))
    × IsOwned 12 (first_frames Const.frame_count) (record { socket = t; held = [] })
    × (t.available ≡ Const.frame_count)
create_tx_lem_example =
    create_tx_lem libc kernel (ok info) build 2 0 12 none false start grants numbered (omega arith)
      (omega arith) refl

create_bi_lem_example :
    (t : TxSocket) × (r : RxSocket) × (p' : Process) × (create_bi_socket libc kernel
        (ok info)
        build
        2
        0
        none
        start
      ≡ done (ok (t, r), p'))
    × IsOwned 11 (first_frames 2048) (record { socket = t; held = [] })
    × (t.available ≡ 2048)
    × IsRx 11 r
    × (unread r ≡ 0)
    × ((i : ℕ)
        → get_elem? r.u_ring.mmap.desc i
          ≡ (if ltb i 2048 then some ((i + 2048) * Const.frame_size) else none))
    × (r.u_ring.mmap.producer ≡ 2048)
    × HoldsPair t r start.log p'.log
    × IsNew 2048 r
create_bi_lem_example =
    create_bi_lem libc kernel (ok info) build 2 0 12 none false start grants numbered (omega arith)
      (omega arith) refl

create_rx_refused_example :
    (p' : Process) × (create_rx_socket libc kernel (ok info) build 2 0 none start
      ≡ done (err (os 22), p'))
create_rx_refused_example =
    create_rx_refused libc kernel (ok info) build 2 0 12 none false start grants numbered
      (omega arith) (omega arith) 22 refuses refl

-- A system without the offsets of the rings.
abbrev failing : Kernel
failing = record kernel { offsets = λ log fd. err 22 }

failing-IsSane : IsSane libc failing
failing-IsSane = record { memory = sane.memory; descs = sane.descs; addrs = sane.addrs }

-- What is left: the socket and the UMEM are given back.
abbrev after_failure : Process
after_failure = record {
  log =
      close 3
      ∷ unmap 65536 8388608
      ∷ set_ring_size 3 3 4096
      ∷ set_ring_size 3 6 4096
      ∷ set_ring_size 3 5 4096
      ∷ register_umem 3 65536 8388608 2048
      ∷ map_umem 65536 8388608
      ∷ socket 3
      ∷ [];
  live = [];
}

fails :
    create_socket libc failing (ok info) build 2 0 tx none start ≡ done (err (os 22), after_failure)
unfolding create_socket setup_umem open_socket set_sizes ring_offsets Mmap.mmap aligned release drop
    drop_mmap set_size
fails = refl

create_socket_released_example :
    (held after_failure.log ≡ held start.log) × (after_failure.live ≡ start.live)
create_socket_released_example =
    create_socket_released libc failing (ok info) failing-IsSane build 2 0 tx none start
      after_failure (os 22) refl fails

-- The sockets that the system gives, and no step since.
made_tx :
    (t : TxSocket) × (p' : Process) × (create_tx_socket libc kernel (ok info) build 2 0 none start
      ≡ done (ok t, p'))
    × IsOwned 12 (first_frames Const.frame_count) (record { socket = t; held = [] })
    × (t.available ≡ Const.frame_count)
made_tx =
    create_tx_lem libc kernel (ok info) build 2 0 12 none false start grants numbered (omega arith)
      (omega arith) refl

created_available_differ_example :
    x_frame (made_tx.0) (head 12 (made_tx.0) 0) ≢ x_frame (made_tx.0) (head 12 (made_tx.0) 1)
created_available_differ_example =
    created_available_differ libc kernel (ok info) build 2 0 12 none false start grants numbered
      (omega arith) (omega arith) refl refl (Completes 12) (made_tx.0) (made_tx.1)
      (record { socket = made_tx.0; held = [] }) 0 1 (λ w w' c. c) (made_tx.2) here (omega arith)
      (omega (arith, made_tx.4))

made_pair :
    (t : TxSocket) × (r : RxSocket) × (p' : Process) × (create_bi_socket libc kernel
        (ok info)
        build
        2
        0
        none
        start
      ≡ done (ok (t, r), p'))
    × IsOwned 11 (first_frames 2048) (record { socket = t; held = [] })
    × (t.available ≡ 2048)
made_pair =
    let made =
      create_bi_lem libc kernel (ok info) build 2 0 12 none false start grants numbered
        (omega arith) (omega arith) refl in
    (made.0, made.1, made.2, made.3, made.4, made.5)

pair_apart_example :
    get_elem? made_pair.1.u_ring.mmap.desc 5
    ≢ some (x_frame (made_pair.0) (head 11 (made_pair.0) 7))
pair_apart_example =
    pair_apart libc kernel (ok info) build 2 0 12 none false start grants numbered (omega arith)
      (omega arith) refl refl (Completes 11) (made_pair.0) (made_pair.1) (made_pair.2)
      (record { socket = made_pair.0; held = [] }) 7 5 (λ w w' c. c) (made_pair.3) here
      (omega (arith, made_pair.5))

pair_dropped_example :
    InTurn libc (made_pair.0) (made_pair.1) start.log made_pair.2.log
    × InTurn libc (made_pair.1) (made_pair.0) start.log made_pair.2.log
pair_dropped_example =
    pair_dropped libc kernel (ok info) build 2 0 12 none false start grants numbered (omega arith)
      (omega arith) refl (made_pair.0) (made_pair.1) (made_pair.2) sane refl (made_pair.3)

created_counts_all_example :
    (unread (made_pair.1) ≡ 0)
    × (made_pair.1.u_ring.mmap.producer ≡ 2048)
    × (Api.seek build (made_pair.1) ≡ done (ok 1, made_pair.1))
    × (s' : RxSocket) × (Api.commit build (made_pair.1) ≡ done (ok tt, s'))
    × (s'.x_ring.mmap.consumer ≡ 1)
    × (s'.u_ring.mmap.producer ≡ 1)
created_counts_all_example =
    created_counts_all libc kernel (ok info) build 2 0 12 none false start grants numbered
      (omega arith) (omega arith) refl refl (made_pair.0) (made_pair.1) (made_pair.2) (made_pair.3)
