-- ===== src/Socket/Fetching.antt =====
-- `seek_and_peek` of a TX socket: a frame to write to, taken back from the kernel if need be.
use native.Mathlib.Nat.{add-zero}
use xdp_rs.Prelude.{
  ℕ, ◌+◌, ◌-◌, ◌%◌, ◌^◌, ◌≤◌, ◌<◌, ◌≡◌, ap, ◌∙◌, arith, true, false, Build, done, ok, err, min, ltb,
  leb, ◌==◌, if◌then◌else◌, Bool-cases, inl, inr, get_or-set_self,
}
use xdp_rs.Prelude.Words.{u32_mod}
use xdp_rs.Ring.{XdpDesc, new_desc}
use xdp_rs.Ring.Const
use xdp_rs.Ring.Access.{slot-lt}
use xdp_rs.Ring.Bytes.{desc_in, IsFrame}
use xdp_rs.Socket.{TxSocket, ring_full}
use xdp_rs.Socket.Peek.{tx_peek_, tx_seek_and_peek}
use xdp_rs.Socket.Reclaim.{completed, pending, after, after-IsTx, tx_seek_lem}
use xdp_rs.Socket.Submit.{head, peeked, frame_of, tx_peek_lem}
use xdp_rs.Socket.Valid.{IsTx}

module _ {k : ℕ} {s : TxSocket} (w : IsTx k s) (b : Build) (len : ℕ) (checks : b.checks ≡ true)
    (short : len < Const.frame_size) where
  -- With a slot available, a peek of the first gives its frame.
  peek_first :
      leb 1 s.available ≡ true
      → IsFrame (desc_in s.x_ring (head k s 0)).addr
      → tx_peek_ b s 0 len ≡ done (ok (frame_of k s 0 len), peeked k s 0 len)
  peek_first some_left frame =
      let inside : leb s.available 0 ≡ false = ground arith in
      let fits : ltb Const.frame_size len ≡ false = ground arith in
      let part : (len == Const.frame_size) ≡ false = ground arith in
      tx_peek_lem w b 0 len checks frame ∙ rw (inside, fits, part)

-- The frame that was taken back stands in the first available slot.
first_after :
    (k : ℕ) (s : TxSocket)
    → IsTx k s
    → (desc_in (after k 1 s).x_ring (head k (after k 1 s) 0)).addr ≡ completed k s s.consumer
first_after k s w =
    let e : s.producer + 0 ≡ s.producer = omega arith in
    rw e (
      ap (λ (t : XdpDesc). t.addr)
        (get_or-set_self s.x_ring.mmap.desc (s.producer % 2 ^ k) _ (new_desc 0 0 0)
          (omega (arith, w.x.area, slot-lt w.x s.producer)))
      ∙ rw add-zero)

-- `seek_and_peek` on a valid TX socket, of a length below `FRAME_SIZE`: with a slot available it gives
-- the frame of the first one; else, with nothing completed, `RingFull`, and nothing changes; else the
-- frame that was completed first, whose slot is then available. The safety checks are compiled in, the
-- frame of the first slot and the frame completed first are frames of the UMEM, and the Completion
-- ring's producer index is a 32-bit word and names no more entries than there are slots that are not
-- available.
pub seek_and_peek_lem :
    (k : ℕ) (b : Build) (s : TxSocket) (len : ℕ)
    → IsTx k s
    → s.u_ring.mmap.producer < u32_mod
    → s.available + pending s ≤ 2 ^ k
    → b.checks ≡ true
    → len < Const.frame_size
    → IsFrame (desc_in s.x_ring (head k s 0)).addr
    → IsFrame (completed k s s.consumer)
    → tx_seek_and_peek b s len ≡ (
        if leb 1 s.available
        then done (ok (frame_of k s 0 len), peeked k s 0 len)
        else if pending s == 0
        then done (err ring_full, s)
        else done (
          ok (record { start = completed k s s.consumer; len = len }),
          peeked k (after k 1 s) 0 len,
        ))
unfolding tx_seek_and_peek
seek_and_peek_lem k b s len w word fits checks short first back =
    elim (Bool-cases (leb 1 s.available)) [
      | inl some_left ↦ rw (
        tx_seek_lem k b s 1 w word fits,
        some_left,
        peek_first w b len checks short some_left first,
      )
      | inr none_left ↦ elim (Bool-cases (pending s == 0)) [
        | inl nothing ↦ rw (tx_seek_lem k b s 1 w word fits, none_left, nothing)
        | inr more ↦
            let one : min (1 - s.available) (pending s) ≡ 1 = ground arith in
            let w' : IsTx k (after k 1 s) = after-IsTx b 1 w (ground arith) in
            let landed = first_after k s w in
            let frame : IsFrame (desc_in (after k 1 s).x_ring (head k (after k 1 s) 0)).addr =
              rw landed back in
            rw
              (
                tx_seek_lem k b s 1 w word fits,
                none_left,
                more,
                one,
                peek_first w' b len checks short (ground arith) frame,
              )
              (ap
                (λ (a : ℕ).
                  done (ok (record { start = a; len = len }), peeked k (after k 1 s) 0 len))
                landed)
      ]
    ]
