-- ===== src/Socket/Seek.antt =====
-- xdp-socket/src/seek.rs
use xdp_rs.Prelude.{
  ℕ, zero, suc, bit_and, min, Bool, true, false, ◌||◌, Build, Run, done, hang, ◌>>=◌, Result, ok,
  err, add_word, leb, ◌==◌, if◌then◌else◌,
}
use xdp_rs.Prelude.Words.{u32_mod, as_u32, wrapping_add, wrapping_sub}
use xdp_rs.Ring
use xdp_rs.Ring.{new_desc}
use xdp_rs.Socket.{Socket, TxSocket, RxSocket, RingError, ring_full, ring_empty}

-- One round of the loop of `Seek_<_TX>::seek_`, up to its test.
unfoldable pub reclaim_one : Build → TxSocket → Run TxSocket
reclaim_one b s = do
  let c_head = bit_and s.consumer s.u_ring.mod_mask
  addr ← Ring.desc_at b s.u_ring c_head
  let desc = new_desc addr 0 0
  let consumer = wrapping_add s.consumer 1
  c_ring ← Ring.update_consumer s.u_ring consumer
  let x_head = bit_and s.producer s.x_ring.mod_mask
  x_ring ← Ring.mut_desc_at b s.x_ring x_head (λ _. desc)
  available ← add_word b u32_mod s.available 1
  done (record s { x_ring = x_ring; u_ring = c_ring; consumer = consumer; available = available })

-- The loop, with fuel.
unfoldable pub reclaim : Build → ℕ → ℕ → ℕ → TxSocket → Run TxSocket
reclaim b zero count c_producer s = hang
reclaim b (suc fuel) count c_producer s = do
  s' ← reclaim_one b s
  let rest = reclaim b fuel count c_producer s'
  if leb count s'.available || c_producer == s'.consumer then done s' else rest

-- `Seek_<_TX>::seek_`. The loop gets a round for each entry up to the producer index that was read.
unfoldable pub tx_seek_ : Build → TxSocket → ℕ → Run (Result ℕ RingError × TxSocket)
tx_seek_ b s count = if leb count s.available then done (ok count, s) else do
  c_producer ← Ring.producer s.u_ring
  if c_producer == s.consumer then done (err ring_full, s) else do
    s' ← reclaim b (wrapping_sub c_producer s.consumer) count c_producer s
    done (ok s'.available, s')

-- `Seek_<_RX>::seek_`
unfoldable pub rx_seek_ : Build → RxSocket → ℕ → Run (Result ℕ RingError × RxSocket)
rx_seek_ b s count = if leb count s.available then done (ok count, s) else do
  x_producer ← Ring.producer s.x_ring
  if x_producer == s.consumer then done (err ring_empty, s) else do
    let available = wrapping_sub x_producer s.consumer
    done (ok (min available (as_u32 count)), record s { available = available })

-- The trait `Seek_`.
unfoldable pub seek_ : (t : Bool) → Build → Socket t → ℕ → Run (Result ℕ RingError × Socket t)
seek_ true b s count = tx_seek_ b s count
seek_ false b s count = rx_seek_ b s count
