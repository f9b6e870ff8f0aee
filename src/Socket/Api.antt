-- ===== src/Socket/Api.antt =====
-- The methods of xdp-socket/src/socket.rs that go through the traits `Seek_` and `Commit_`.
use xdp_rs.Prelude.{ℕ, Bool, Build, Run, Result}
use xdp_rs.Ring
use xdp_rs.Socket.{Socket, RingError}
use xdp_rs.Socket.Seek.{seek_}
use xdp_rs.Socket.Commit.{commit_}

module _ {t : Bool} (b : Build) (s : Socket t) where
  unfoldable pub seek : Run (Result ℕ RingError × Socket t)
  seek = seek_ t b s 1

  unfoldable pub seek_n : ℕ → Run (Result ℕ RingError × Socket t)
  seek_n count = seek_ t b s count

  unfoldable pub commit : Run (Result (Unit {0}) RingError × Socket t)
  commit = commit_ t b s 1

  unfoldable pub commit_n : ℕ → Run (Result (Unit {0}) RingError × Socket t)
  commit_n n = commit_ t b s n

unfoldable pub frame_size : {t : Bool} → Socket t → ℕ
frame_size s = Ring.frame_size s.x_ring
