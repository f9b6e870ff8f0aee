-- ===== src/Ring/Descs.antt =====
-- `impl Ring<XdpDesc>` of xdp-socket/src/ring.rs: the TX and RX rings.
use xdp_rs.Prelude.{
  ℕ, ◌+◌, ◌*◌, Build, Run, done, fault, ◌>>=◌, ◌>>◌, safety_assert, add_word, ltb, leb,
  if◌then◌else◌,
}
use xdp_rs.Prelude.Words.{as_u32, u64_mod}
use xdp_rs.Ring.{Ring, XdpDesc, new_desc, fill_from, mut_desc_at, desc_at}
use xdp_rs.Ring.Const

-- `&mut [u8]` into the UMEM, by its offset from the start of the frames.
pub record Slice : Type 0 where
  pub start : ℕ
  pub len : ℕ

unfoldable pub fill : Build → Ring XdpDesc → ℕ → Run (Ring XdpDesc)
fill b r start_frame = fill_from b (λ addr. new_desc addr 0 0) start_frame (as_u32 r.len) 0 r

-- The assertion that the slice ends before the end of the UMEM; without the safety checks the sum is
-- not computed.
abbrev assert_inside : Build → ℕ → ℕ → Run (Unit {0})
assert_inside b addr len =
    if b.checks
    then add_word b u64_mod addr len
      >>= (λ last. safety_assert b (ltb last (Const.frame_size * Const.frame_count)))
    else done tt

-- `ptr` is modelled by the number of bytes that are mapped there; a slice that leaves them is a
-- fault.
unfoldable pub mut_bytes_at : Build → Ring XdpDesc → ℕ → ℕ → ℕ → Run (Slice × Ring XdpDesc)
mut_bytes_at b r ptr index len = do
  safety_assert b (ltb index Const.frame_count)
  safety_assert b (ltb (as_u32 len) Const.frame_size)
  desc ← desc_at b r index
  assert_inside b desc.addr len
  r' ← mut_desc_at b r index (λ d. record d { len = as_u32 len })
  if leb (desc.addr + len) ptr then done (record { start = desc.addr; len = len }, r') else fault

unfoldable pub set : Build → Ring XdpDesc → ℕ → ℕ → Run (Ring XdpDesc)
set b r index len = do
  safety_assert b (ltb index Const.frame_count)
  safety_assert b (ltb len Const.frame_size)
  mut_desc_at b r index (λ _. new_desc (index * Const.frame_size) len 0)
