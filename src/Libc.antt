-- ===== src/Libc.antt =====
-- The constants of the libc crate that the sources name. The crate is not part of the repository,
-- so they are a parameter of the model.
use xdp_rs.Prelude.{ℕ}

pub record Libc : Type 0 where
  pub xdp_ring_need_wakeup : ℕ
  pub ebusy : ℕ
  pub enobufs : ℕ
  pub eagain : ℕ
  pub enetdown : ℕ
  pub pollin : ℕ
  pub pollout : ℕ
  pub map_failed : ℕ
  pub xdp_tx_ring : ℕ
  pub xdp_rx_ring : ℕ
  pub xdp_umem_fill_ring : ℕ
  pub xdp_umem_completion_ring : ℕ
  pub xdp_pgoff_tx_ring : ℕ
  pub xdp_pgoff_rx_ring : ℕ
  pub xdp_umem_pgoff_fill_ring : ℕ
  pub xdp_umem_pgoff_completion_ring : ℕ
  pub xdp_zerocopy : ℕ
  pub xdp_copy : ℕ
  pub xdp_use_need_wakeup : ℕ
