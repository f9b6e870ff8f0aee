-- ===== src/Socket/Valid.antt =====
-- What holds of a socket between two calls.
use xdp_rs.Prelude.{ℕ, ◌^◌, ◌≤◌, ◌<◌}
use xdp_rs.Prelude.Words.{u32_mod}
use xdp_rs.Ring.Access.{IsRing}
use xdp_rs.Ring.Bytes.{umem_size}
use xdp_rs.Ring.Const
use xdp_rs.Socket.{TxSocket, RxSocket}

-- A TX socket whose TX and Completion rings are mapped with `2 ^ k` entries.
pub record IsTx (k : ℕ) (s : TxSocket) : Type 0 where
  pub x : IsRing k s.x_ring
  pub u : IsRing k s.u_ring
  pub few : 2 ^ k ≤ Const.frame_count
  pub room : s.available ≤ 2 ^ k
  pub p_word : s.producer < u32_mod
  pub c_word : s.consumer < u32_mod
  pub umem : umem_size ≤ s.frames

-- An RX socket whose RX and Fill rings are mapped with `2 ^ k` entries.
pub record IsRx (k : ℕ) (s : RxSocket) : Type 0 where
  pub x : IsRing k s.x_ring
  pub u : IsRing k s.u_ring
  pub few : 2 ^ k ≤ Const.frame_count
  pub room : s.available ≤ 2 ^ k
  pub p_word : s.producer < u32_mod
  pub c_word : s.consumer < u32_mod
  pub umem : umem_size ≤ s.frames
