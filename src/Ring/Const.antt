-- ===== src/Ring/Const.antt =====
-- The two constants of xdp-socket/src/ring.rs.
use xdp_rs.Prelude.{ℕ}

-- `FRAME_SIZE`
abbrev pub frame_size : ℕ
frame_size = 2048

-- `FRAME_COUNT`
abbrev pub frame_count : ℕ
frame_count = 4096
