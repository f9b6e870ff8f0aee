-- ===== src/Socket/Tests/Receives.antt =====
-- Receiving.
use xdp_rs.Prelude.{
  ℕ, ◌≡◌, ◌+◌, refl, arith, some, none, done, ok, get_elem?, get_or, ltb, if◌then◌else◌,
}
use xdp_rs.Socket.{RxSocket}
use xdp_rs.Socket.Seek.{rx_seek_}
use xdp_rs.Socket.Commit.{rx_commit_}
use xdp_rs.Socket.Peek.{rx_peek_}
use xdp_rs.Socket.Valid.{IsRx}
use xdp_rs.Socket.Receive.{rx_seek_lem, rx_peek_lem}
use xdp_rs.Socket.Releasing.{frames_given_back}
use xdp_rs.Socket.Refill.{offset, received}
use xdp_rs.Socket.Tests.Sockets.{build, rx_socket, rx_socket-IsRx, rx_waiting, rx_waiting-IsRx}

rx_seek_lem_example : rx_seek_ build rx_waiting 1 ≡ done (ok 1, rx_socket)
rx_seek_lem_example = rx_seek_lem rx_waiting-IsRx build 1 (omega arith) (omega arith)

rx_peek_lem_example :
    rx_peek_ build rx_socket 0 ≡ done (ok (record { start = 2048; len = 60 }), rx_socket)
rx_peek_lem_example = rx_peek_lem rx_socket-IsRx build 0 refl (omega arith) (omega arith)

frames_given_back_example :
    (s' : RxSocket) × (rx_commit_ build rx_socket 1 ≡ done (ok tt, s'))
    × ((i : ℕ)
        → get_elem? s'.u_ring.mmap.desc i ≡ (
            if ltb i 2
            then some (
                if ltb (offset 1 2 i) 1
                then received 1 rx_socket.x_ring (0 + offset 1 2 i)
                else get_or rx_socket.u_ring.mmap.desc i 0)
            else none))
    × (s'.u_ring.mmap.producer ≡ 3)
    × (s'.producer ≡ 3)
    × (s'.x_ring.mmap.consumer ≡ 1)
    × (s'.consumer ≡ 1)
    × (s'.available + 1 ≡ 1)
    × IsRx 1 s'
frames_given_back_example = frames_given_back rx_socket-IsRx build 1 refl (omega arith)
