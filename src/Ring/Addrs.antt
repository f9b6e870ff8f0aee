-- ===== src/Ring/Addrs.antt =====
-- `impl Ring<u64>` of xdp-socket/src/ring.rs: the Fill and Completion rings.
use xdp_rs.Prelude.{ℕ, Build, Run}
use xdp_rs.Prelude.Words.{as_u32}
use xdp_rs.Ring.{Ring, fill_from}

unfoldable pub fill : Build → Ring ℕ → ℕ → Run (Ring ℕ)
fill b r start_frame = fill_from b (λ addr. addr) start_frame (as_u32 r.len) 0 r
