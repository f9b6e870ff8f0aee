-- ===== src/Socket/Peek.antt =====
-- xdp-socket/src/peek.rs
use xdp_rs.Prelude.{
  ℕ, bit_and, ◌&&◌, Build, Run, done, ◌>>=◌, Result, ok, err, ltb, leb, if◌then◌else◌,
}
use xdp_rs.Prelude.Words.{as_u32, wrapping_add}
use xdp_rs.Ring
use xdp_rs.Ring.Descs.{Slice, mut_bytes_at}
use xdp_rs.Socket.{TxSocket, RxSocket, RingError, invalid_index, invalid_length}
use xdp_rs.Socket.Seek.{tx_seek_, rx_seek_}

-- `Socket<_TX>::peek_`
unfoldable pub tx_peek_ : Build → TxSocket → ℕ → ℕ → Run (Result Slice RingError × TxSocket)
tx_peek_ b s index len =
    if b.checks && leb s.available index
    then done (err invalid_index, s)
    else if b.checks && ltb (Ring.frame_size s.x_ring) len
    then done (err invalid_length, s)
    else do
      let x_head = bit_and (wrapping_add s.producer (as_u32 index)) s.x_ring.mod_mask
      x_ring ← Ring.mut_desc_at b s.x_ring x_head (λ d. record d { len = as_u32 len })
      bytes ← mut_bytes_at b x_ring s.frames x_head len
      done (ok bytes.0, record s { x_ring = bytes.1 })

-- `peek` and `peek_at` of `Socket<_TX>`
unfoldable pub tx_peek : Build → TxSocket → ℕ → Run (Result Slice RingError × TxSocket)
tx_peek b s len = tx_peek_ b s 0 len

unfoldable pub tx_peek_at : Build → TxSocket → ℕ → ℕ → Run (Result Slice RingError × TxSocket)
tx_peek_at b s index len = tx_peek_ b s index len

-- `self.seek_(1)?` followed by a peek.
abbrev pub then_peek :
    {S : Type 0}
    → Result ℕ RingError × S
    → (S → Run (Result Slice RingError × S))
    → Run (Result Slice RingError × S)
then_peek (ok n, s) peek = peek s
then_peek (err e, s) peek = done (err e, s)

unfoldable pub tx_seek_and_peek : Build → TxSocket → ℕ → Run (Result Slice RingError × TxSocket)
tx_seek_and_peek b s len = do found ← tx_seek_ b s 1; then_peek found (λ s'. tx_peek_ b s' 0 len)

-- `Socket<_RX>::peek_`
unfoldable pub rx_peek_ : Build → RxSocket → ℕ → Run (Result Slice RingError × RxSocket)
rx_peek_ b s index = if b.checks && leb s.available index then done (err invalid_index, s) else do
  let x_head = bit_and (wrapping_add s.consumer (as_u32 index)) s.x_ring.mod_mask
  desc ← Ring.desc_at b s.x_ring x_head
  bytes ← mut_bytes_at b s.x_ring s.frames x_head desc.len
  done (ok bytes.0, record s { x_ring = bytes.1 })

-- `peek` and `peek_at` of `Socket<_RX>`
unfoldable pub rx_peek : Build → RxSocket → Run (Result Slice RingError × RxSocket)
rx_peek b s = rx_peek_ b s 0

unfoldable pub rx_peek_at : Build → RxSocket → ℕ → Run (Result Slice RingError × RxSocket)
rx_peek_at b s index = rx_peek_ b s index

unfoldable pub rx_seek_and_peek : Build → RxSocket → Run (Result Slice RingError × RxSocket)
rx_seek_and_peek b s = do found ← rx_seek_ b s 1; then_peek found (λ s'. rx_peek_ b s' 0)
