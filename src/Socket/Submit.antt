-- ===== src/Socket/Submit.antt =====
-- `commit_` and `peek_` of a TX socket: what each returns and changes, on every branch.
use native.Mathlib.Nat.{mod-eq_of_lt}
use xdp_rs.Prelude.{
  ℕ, ◌+◌, ◌-◌, ◌%◌, ◌^◌, ◌≤◌, ◌<◌, ◌≡◌, bit_and, true, arith, Build, done, panic, set-set, ok, err,
  ltb, leb, ◌==◌, if◌then◌else◌, Bool-cases, ◌⊎◌, inl, inr, get_or-set_self,
}
use xdp_rs.Prelude.Words.{u32_mod, as_u32, wrapping_add, sub_word_fits, pow-lt_u32, wrap-mod}
use xdp_rs.Ring.{new_desc, with_desc, with_producer}
use xdp_rs.Ring.Const
use xdp_rs.Ring.Access.{
  slot, slot-lt, mut_desc_at-IsRing, update_producer-IsRing, with_desc-IsRing, with_producer-IsRing,
}
use xdp_rs.Ring.Bytes.{desc_in, IsFrame, mut_bytes_at_lem, mut_bytes_at_panics}
use xdp_rs.Ring.Descs.{Slice, mut_bytes_at}
use xdp_rs.Ring
use xdp_rs.Socket.{TxSocket, not_available, invalid_index, invalid_length}
use xdp_rs.Socket.Commit.{tx_commit_}
use xdp_rs.Socket.Peek.{tx_peek_}
use xdp_rs.Socket.Valid.{IsTx}

-- The socket after `n` slots are handed to the kernel.
abbrev pub committed : ℕ → TxSocket → TxSocket
committed n s = record s {
  available = s.available - n;
  producer = wrapping_add s.producer n;
  x_ring = with_producer s.x_ring (wrapping_add s.producer n);
}

-- The slot of the `index`-th available descriptor.
abbrev pub head : ℕ → TxSocket → ℕ → ℕ
head k s index = (s.producer + index) % 2 ^ k

-- The socket after a peek: the descriptor's length is set.
abbrev pub peeked : ℕ → TxSocket → ℕ → ℕ → TxSocket
peeked k s index len = record s {
  x_ring =
      with_desc s.x_ring (head k s index)
        (record (desc_in s.x_ring (head k s index)) { len = len });
}

-- The frame that a peek gives, as a slice of the UMEM.
abbrev pub frame_of : ℕ → TxSocket → ℕ → ℕ → Slice
frame_of k s index len = record { start = (desc_in s.x_ring (head k s index)).addr; len = len }

module _ {k : ℕ} {s : TxSocket} (w : IsTx k s) (b : Build) where
  -- `commit_` on a valid TX socket, with the safety checks compiled in: a count that, read as 32
  -- bits, exceeds the available slots gives `NotAvailable` and changes nothing; any other is taken
  -- off the available slots, and the producer index moves on by it, modulo 2^32, in the socket and
  -- in the TX ring.
  pub tx_commit_lem :
      (count : ℕ)
      → b.checks ≡ true
      → tx_commit_ b s count ≡ (
          if ltb s.available (as_u32 count)
          then done (err not_available, s)
          else done (ok tt, committed (as_u32 count) s))
  unfolding tx_commit_
  tx_commit_lem count checks = elim (Bool-cases (ltb s.available (as_u32 count))) [
    | inl short ↦ rw (checks, short)
    | inr enough ↦ rw (
      checks,
      sub_word_fits b u32_mod s.available (as_u32 count) (ground arith)
          (omega (arith, pow-lt_u32 k w.x.small)),
      enough,
      update_producer-IsRing w.x (wrapping_add s.producer (as_u32 count)),
    )
  ]

  pub committed-IsTx : (n : ℕ) → n ≤ s.available → IsTx k (committed n s)
  committed-IsTx n h = record {
    x = with_producer-IsRing w.x _;
    u = w.u;
    few = w.few;
    room = omega arith;
    p_word = omega arith;
    c_word = w.c_word;
    umem = w.umem;
  }

  pub head-lt : (index : ℕ) → head k s index < 2 ^ k
  head-lt index = slot-lt w.x (s.producer + index)

  -- Masking the wrapped index gives the slot.
  head_lem :
      (index : ℕ)
      → index < s.available
      → bit_and (wrapping_add s.producer (as_u32 index)) s.x_ring.mod_mask ≡ head k s index
  head_lem index h =
      let small : as_u32 index ≡ index = mod-eq_of_lt (omega (arith, pow-lt_u32 k w.x.small)) in
      rw (small, slot w.x (wrapping_add s.producer index))
        (wrap-mod k (s.producer + index) (omega arith))

  -- Setting the length keeps the frame of the slot.
  touched :
      (index len : ℕ)
      → desc_in (peeked k s index len).x_ring (head k s index)
        ≡ record (desc_in s.x_ring (head k s index)) { len = len }
  touched index len =
      get_or-set_self s.x_ring.mmap.desc (head k s index) _ _ (omega (arith, head-lt index))

  pub peeked-IsTx : (index len : ℕ) → IsTx k (peeked k s index len)
  peeked-IsTx index len = record {
    x = with_desc-IsRing w.x _ _;
    u = w.u;
    few = w.few;
    room = w.room;
    p_word = w.p_word;
    c_word = w.c_word;
    umem = w.umem;
  }

  peek_bytes :
      (index len : ℕ)
      → len < Const.frame_size
      → IsFrame (desc_in s.x_ring (head k s index)).addr
      → mut_bytes_at b (peeked k s index len).x_ring s.frames (head k s index) len
        ≡ done (frame_of k s index len, (peeked k s index len).x_ring)
  peek_bytes index len hl frame =
      rw (touched index len, set-set) at
        (mut_bytes_at_lem (peeked-IsTx index len).x w.few b s.frames (head k s index) len
          (head-lt index) hl (rw (touched index len) frame) w.umem)

  peek_fits :
      (index len : ℕ)
      → index < s.available
      → len < Const.frame_size
      → IsFrame (desc_in s.x_ring (head k s index)).addr
      → tx_peek_ b s index len ≡ done (ok (frame_of k s index len), peeked k s index len)
  unfolding tx_peek_ Ring.frame_size
  peek_fits index len hi hl frame =
      let small : as_u32 len ≡ len = mod-eq_of_lt (omega arith) in
      rw
        (
          head_lem index hi,
          mut_desc_at-IsRing w.x b (head k s index) (λ d. record d { len = as_u32 len })
              (new_desc 0 0 0) (head-lt index),
          small,
          peek_bytes index len hl frame,
        )
        (ground arith)

  peek_panics :
      (index : ℕ)
      → b.checks ≡ true
      → index < s.available
      → tx_peek_ b s index Const.frame_size ≡ panic
  unfolding tx_peek_ Ring.frame_size
  peek_panics index checks hi =
      rw
        (
          head_lem index hi,
          mut_desc_at-IsRing w.x b (head k s index) (λ d. record d { len = Const.frame_size })
              (new_desc 0 0 0) (head-lt index),
          mut_bytes_at_panics (peeked-IsTx index Const.frame_size).x w.few b s.frames
              (head k s index) Const.frame_size checks (head-lt index) (omega arith),
        )
        (ground arith)

  pub peek_refused :
      (index len : ℕ)
      → b.checks ≡ true
      → (leb s.available index ≡ true) ⊎ (ltb Const.frame_size len ≡ true)
      → tx_peek_ b s index len ≡ (
          if leb s.available index
          then done (err invalid_index, s)
          else done (err invalid_length, s))
  unfolding tx_peek_ Ring.frame_size
  peek_refused index len checks (inl out) = rw (checks, out)
  peek_refused index len checks (inr long) = elim (Bool-cases (leb s.available index)) [
    | inl out ↦ rw (checks, out)
    | inr inside ↦ rw (checks, inside, long)
  ]

  -- `peek_` on a valid TX socket, with the safety checks compiled in, where the descriptor of the
  -- slot asked for names a frame of the UMEM: an index outside the available slots gives
  -- `InvalidIndex`, and else a length above `FRAME_SIZE` gives `InvalidLength`, each with nothing
  -- changed; a length of exactly `FRAME_SIZE` panics; any smaller length gives so many bytes of the
  -- slot's frame, and changes nothing but the length in the slot's descriptor.
  pub tx_peek_lem :
      (index len : ℕ)
      → b.checks ≡ true
      → IsFrame (desc_in s.x_ring (head k s index)).addr
      → tx_peek_ b s index len ≡ (
          if leb s.available index
          then done (err invalid_index, s)
          else if ltb Const.frame_size len
          then done (err invalid_length, s)
          else if len == Const.frame_size
          then panic
          else done (ok (frame_of k s index len), peeked k s index len))
  tx_peek_lem index len checks frame = elim (Bool-cases (leb s.available index)) [
    | inl out ↦ rw (peek_refused index len checks (inl out), out)
    | inr inside ↦ elim (Bool-cases (ltb Const.frame_size len)) [
      | inl long ↦ rw (peek_refused index len checks (inr long), inside, long)
      | inr fits ↦ elim (Bool-cases (len == Const.frame_size)) [
        | inl whole ↦
            let e : len ≡ Const.frame_size = ground arith in
            rw (inside, fits, whole, e) (peek_panics index checks (ground arith))
        | inr part ↦
            rw (inside, fits, part) (peek_fits index len (ground arith) (ground arith) frame)
      ]
    ]
  ]
