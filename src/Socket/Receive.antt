-- ===== src/Socket/Receive.antt =====
-- `seek_` and `peek_` of an RX socket: what each returns and changes.
use native.Mathlib.Nat.{mod-eq_of_lt}
use xdp_rs.Prelude.{
  ℕ, ◌+◌, ◌%◌, ◌^◌, ◌<◌, ◌≡◌, min, bit_and, true, false, arith, ap, Build, done, panic, ok, err,
  leb, ◌==◌, if◌then◌else◌, Bool-cases, inl, inr, set-get_or,
}
use xdp_rs.Prelude.Words.{u32_mod, as_u32, wrapping_add, wrapping_sub, pow-lt_u32, wrap-mod}
use xdp_rs.Ring.{XdpDesc, new_desc, with_desc, with_area}
use xdp_rs.Ring.Const
use xdp_rs.Ring.Access.{slot, slot-lt, desc_at-IsRing, producer-IsRing}
use xdp_rs.Ring.Bytes.{desc_in, IsFrame, mut_bytes_at_lem, mut_bytes_at_panics}
use xdp_rs.Socket.{RxSocket, invalid_index, ring_empty}
use xdp_rs.Socket.Seek.{rx_seek_}
use xdp_rs.Socket.Peek.{rx_peek_}
use xdp_rs.Socket.Valid.{IsRx}

-- The packets in the RX ring that the socket has not released.
abbrev pub unread : RxSocket → ℕ
unread s = wrapping_sub s.x_ring.mmap.producer s.consumer

module _ {k : ℕ} {s : RxSocket} (w : IsRx k s) (b : Build) where
  -- `seek_` on a valid RX socket returns in every build: with `count` and nothing changed if so many
  -- packets are counted as available; with `RingEmpty` and nothing changed if the RX ring's producer
  -- index is the socket's consumer index; and else all unread packets become available, and it
  -- returns their number or the count, whichever is less. The count and the producer index are
  -- 32-bit words.
  pub rx_seek_lem :
      (count : ℕ)
      → count < u32_mod
      → s.x_ring.mmap.producer < u32_mod
      → rx_seek_ b s count ≡ (
          if leb count s.available
          then done (ok count, s)
          else if unread s == 0
          then done (err ring_empty, s)
          else done (ok (min (unread s) count), record s { available = unread s }))
  unfolding rx_seek_
  rx_seek_lem count small word = elim (Bool-cases (leb count s.available)) [
    | inl enough ↦ rw enough
    | inr short ↦ elim (Bool-cases (unread s == 0)) [
      | inl empty ↦
          let same : (s.x_ring.mmap.producer == s.consumer) ≡ true = ground (arith, w.c_word) in
          rw (short, producer-IsRing w.x, same, empty)
      | inr some_left ↦
          let differ : (s.x_ring.mmap.producer == s.consumer) ≡ false = ground (arith, w.c_word) in
          rw (short, producer-IsRing w.x, differ, some_left, mod-eq_of_lt small)
    ]
  ]

  -- Masking the wrapped index gives the slot.
  x_head_lem :
      (index : ℕ)
      → index < s.available
      → bit_and (wrapping_add s.consumer (as_u32 index)) s.x_ring.mod_mask
        ≡ (s.consumer + index) % 2 ^ k
  x_head_lem index h =
      let small : as_u32 index ≡ index =
        mod-eq_of_lt (omega (arith, w.room, pow-lt_u32 k w.x.small)) in
      rw (small, slot w.x (wrapping_add s.consumer index))
        (wrap-mod k (s.consumer + index) (omega (arith, w.x.small)))

  -- `peek_` on a valid RX socket, with the safety checks compiled in: an index outside the available
  -- packets gives `InvalidIndex`; a descriptor whose length reaches `FRAME_SIZE` panics; any other
  -- gives the packet that the descriptor names; the socket is left as it was. The descriptor's address
  -- is that of a frame of the UMEM, and its length a 32-bit word.
  pub rx_peek_lem :
      (index : ℕ)
      → b.checks ≡ true
      → IsFrame (desc_in s.x_ring ((s.consumer + index) % 2 ^ k)).addr
      → (desc_in s.x_ring ((s.consumer + index) % 2 ^ k)).len < u32_mod
      → let d = desc_in s.x_ring ((s.consumer + index) % 2 ^ k) in
        rx_peek_ b s index ≡ (
          if leb s.available index
          then done (err invalid_index, s)
          else if leb Const.frame_size d.len
          then panic
          else done (ok (record { start = d.addr; len = d.len }), s))
  unfolding rx_peek_
  rx_peek_lem index checks frame word = elim (Bool-cases (leb s.available index)) [
    | inl out ↦ rw (out, checks)
    | inr inside ↦
        rw
          (
            x_head_lem index (ground arith),
            desc_at-IsRing w.x b h (new_desc 0 0 0) (slot-lt w.x (s.consumer + index)),
          )
          (elim (Bool-cases (leb Const.frame_size d.len)) [
            | inl long ↦
                let small : as_u32 d.len ≡ d.len = mod-eq_of_lt word in
                rw (
                  mut_bytes_at_panics w.x w.few b s.frames h d.len checks
                      (slot-lt w.x (s.consumer + index)) (rw small (ground arith)),
                  inside,
                  long,
                  checks,
                )
            | inr short ↦ rw (
              mut_bytes_at_lem w.x w.few b s.frames h d.len (slot-lt w.x (s.consumer + index))
                  (ground arith) frame w.umem,
              unchanged,
              inside,
              short,
              checks,
            )
          ])
  ]
    where
      h : ℕ
      h = (s.consumer + index) % 2 ^ k

      d : XdpDesc
      d = desc_in s.x_ring h

      unchanged : with_desc s.x_ring h (record d { len = d.len }) ≡ s.x_ring
      unchanged = ap (λ l. with_area s.x_ring l) (set-get_or s.x_ring.mmap.desc h (new_desc 0 0 0))
