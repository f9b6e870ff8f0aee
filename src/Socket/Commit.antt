-- ===== src/Socket/Commit.antt =====
-- xdp-socket/src/commit.rs
use xdp_rs.Prelude.{
  ℕ, zero, suc, bit_and, Bool, true, false, ◌&&◌, Build, Run, done, ◌>>=◌, Result, ok, err,
  sub_word, ltb, if◌then◌else◌,
}
use xdp_rs.Prelude.Words.{u32_mod, as_u32, wrapping_add}
use xdp_rs.Ring
use xdp_rs.Ring.{Ring, XdpDesc}
use xdp_rs.Socket.{Socket, TxSocket, RxSocket, RingError, not_available}

-- `Commit_<_TX>::commit_`
unfoldable pub tx_commit_ : Build → TxSocket → ℕ → Run (Result (Unit {0}) RingError × TxSocket)
tx_commit_ b s count =
    if b.checks && ltb s.available (as_u32 count) then done (err not_available, s) else do
      available ← sub_word b u32_mod s.available (as_u32 count)
      let producer = wrapping_add s.producer (as_u32 count)
      x_ring ← Ring.update_producer s.x_ring producer
      done (ok tt, record s { available = available; producer = producer; x_ring = x_ring })

-- The cursors and the Fill ring while frames go back to it.
pub record Cursors : Type 0 where
  pub f_ring : Ring ℕ
  pub consumer : ℕ
  pub producer : ℕ

-- The loop of `Commit_<_RX>::commit_`, with `n` rounds left.
unfoldable pub return_frames : Build → Ring XdpDesc → ℕ → Cursors → Run Cursors
return_frames b x_ring zero c = done c
return_frames b x_ring (suc n) c = do
  desc ← Ring.desc_at b x_ring (bit_and c.consumer x_ring.mod_mask)
  f_ring ← Ring.mut_desc_at b c.f_ring (bit_and c.producer x_ring.mod_mask) (λ _. desc.addr)
  return_frames b x_ring n (record {
    f_ring = f_ring;
    consumer = wrapping_add c.consumer 1;
    producer = wrapping_add c.producer 1;
  })

-- `Commit_<_RX>::commit_`
unfoldable pub rx_commit_ : Build → RxSocket → ℕ → Run (Result (Unit {0}) RingError × RxSocket)
rx_commit_ b s count =
    if b.checks && ltb s.available (as_u32 count) then done (err not_available, s) else do
      c ←
          return_frames b s.x_ring (as_u32 count)
            (record { f_ring = s.u_ring; consumer = s.consumer; producer = s.producer })
      available ← sub_word b u32_mod s.available (as_u32 count)
      x_ring ← Ring.update_consumer s.x_ring c.consumer
      f_ring ← Ring.update_producer c.f_ring c.producer
      done (
        ok tt,
        record s {
          x_ring = x_ring;
          u_ring = f_ring;
          available = available;
          producer = c.producer;
          consumer = c.consumer;
        },
      )

-- The trait `Commit_`.
unfoldable pub commit_ :
    (t : Bool) → Build → Socket t → ℕ → Run (Result (Unit {0}) RingError × Socket t)
commit_ true b s count = tx_commit_ b s count
commit_ false b s count = rx_commit_ b s count
