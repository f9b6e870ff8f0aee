-- ===== src/Socket/Sending.antt =====
-- `send`: the bytes that reach the UMEM, the descriptor that reaches the kernel, and the refusals.
use native.Mathlib.Nat.{add-zero}
use mathlib.Core.Path.{fun_ext}
use xdp_rs.Prelude.{
  ap, Run, ◌&&◌, ℕ, zero, suc, ◌+◌, ◌-◌, ◌≤◌, ◌<◌, ◌≡◌, true, false, arith, ◌∙◌, Build, done, panic,
  Option, none, some, [], ◌∷◌, ◌++◌, ok, err, ltb, leb, ◌==◌, if◌then◌else◌, Bool-cases, ◌⊎◌, inl,
  inr, length, get_or, length-append, get_or-append, refl,
}
use xdp_rs.Prelude.Words.{u64_mod, add_word_fits}
use xdp_rs.Ring.Const
use xdp_rs.Ring.Bytes.{desc_in, IsFrame}
use xdp_rs.Socket.{TxSocket, invalid_index, invalid_length}
use xdp_rs.Socket.Commit.{tx_commit_}
use xdp_rs.Socket.Peek.{tx_peek}
use xdp_rs.Socket.Send.{Bytes, write, header_len, fill_and_commit, send, Sent}
use xdp_rs.Socket.Valid.{IsTx}
use xdp_rs.Socket.Submit.{
  committed, peeked, head, frame_of, tx_commit_lem, tx_peek_lem, peeked-IsTx,
}

write_inside :
    (bs : Bytes) (a i : ℕ) (mem : ℕ → ℕ) → i < length bs → write a bs mem (a + i) ≡ get_or bs i 0
unfolding write
write_inside [] a i mem h = absurd (omega arith)
write_inside (x ∷ bs) a zero mem h = let here : (a + 0 == a) ≡ true = ground arith in rw here
write_inside (x ∷ bs) a (suc i) mem h =
    let later : (a + suc i == a) ≡ false = ground arith in
    let e : a + suc i ≡ a + 1 + i = omega arith in
    rw later (rw e (write_inside bs (a + 1) i mem (omega arith)))

pub write_outside :
    (bs : Bytes) (a i : ℕ) (mem : ℕ → ℕ) → (i < a) ⊎ (a + length bs ≤ i) → write a bs mem i ≡ mem i
unfolding write
write_outside [] a i mem h = refl
write_outside (x ∷ bs) a i mem h =
    let later : (i == a) ≡ false = ground arith in
    rw later (write_outside bs (a + 1) i mem (omega arith))

-- The packet that `send` is to put together.
abbrev pub packet : Bytes → Option Bytes → Bytes
packet payload none = payload
packet payload (some h) = h ++ payload

pub length-packet :
    (payload : Bytes) (header : Option Bytes)
    → length (packet payload header) ≡ length payload + header_len header
length-packet payload none = omega arith
length-packet payload (some h) = omega (arith, length-append h payload)

-- The memory that `send` leaves.
written : ℕ → Bytes → Option Bytes → (ℕ → ℕ) → ℕ → ℕ
written a payload none mem = write (a + 0) payload mem
written a payload (some h) mem = write (a + length h) payload (write (a + 0) h mem)

written_inside :
    (a : ℕ) (payload : Bytes) (header : Option Bytes) (mem : ℕ → ℕ) (i : ℕ)
    → i < length (packet payload header)
    → written a payload header mem (a + i) ≡ get_or (packet payload header) i 0
unfolding written
written_inside a payload none mem i h = rw add-zero (write_inside payload a i mem h)
written_inside a payload (some hdr) mem i h = elim (Bool-cases (ltb i (length hdr))) [
  | inl early ↦
      rw
        (
          write_outside payload (a + length hdr) (a + i) (write (a + 0) hdr mem) (ground arith),
          get_or-append hdr payload i 0,
          early,
          add-zero,
        )
        (write_inside hdr a i mem (ground arith))
  | inr late ↦
      let j = i - length hdr in
      let e : a + i ≡ a + length hdr + j = ground arith in
      rw (e, get_or-append hdr payload i 0, late)
        (write_inside payload (a + length hdr) j (write (a + 0) hdr mem)
          (ground (arith, length-append hdr payload)))
]

written_outside :
    (a : ℕ) (payload : Bytes) (header : Option Bytes) (mem : ℕ → ℕ) (i : ℕ)
    → (i < a) ⊎ (a + length (packet payload header) ≤ i)
    → written a payload header mem i ≡ mem i
unfolding written
written_outside a payload none mem i h = rw add-zero (write_outside payload a i mem h)
written_outside a payload (some hdr) mem i h =
    rw
      (
        write_outside payload (a + length hdr) i (write (a + 0) hdr mem)
            (ground (arith, length-append hdr payload)),
        add-zero,
      )
      (write_outside hdr a i mem (ground (arith, length-append hdr payload)))

-- Copying into a buffer of the packet's length.
copied :
    (b : Build) (payload : Bytes) (header : Option Bytes) (mem : ℕ → ℕ) (a : ℕ) (s s' : TxSocket)
    → tx_commit_ b s 1 ≡ done (ok tt, s')
    → fill_and_commit b payload header mem
        (ok (record { start = a; len = length payload + header_len header }), s)
      ≡ done (ok tt, s', written a payload header mem)
unfolding written
copied b payload none mem a s s' e =
    let n = length payload in
    let lo : leb 0 (n + 0) ≡ true = ground arith in
    let hi : leb (n + 0) (n + 0) ≡ true = ground arith in
    let whole : (n + 0 - 0 == n) ≡ true = ground arith in rw (lo, hi, whole, e)
copied b payload (some h) mem a s s' e =
    let n = length payload in
    let m = length h in
    let lo : leb 0 m ≡ true = ground arith in
    let hi : leb m (n + m) ≡ true = ground arith in
    let head_fits : (m - 0 == m) ≡ true = ground arith in
    let end_in : leb (n + m) (n + m) ≡ true = ground arith in
    let tail_fits : (n + m - m == n) ≡ true = ground arith in
    rw (lo, hi, head_fits, end_in, tail_fits, e)

-- Memory with `bs` at `a` and as before elsewhere.
abbrev pub overwritten : ℕ → Bytes → (ℕ → ℕ) → ℕ → ℕ
overwritten a bs mem i = if leb a i && ltb i (a + length bs) then get_or bs (i - a) 0 else mem i

written_lem :
    (a : ℕ) (payload : Bytes) (header : Option Bytes) (mem : ℕ → ℕ)
    → written a payload header mem ≡ overwritten a (packet payload header) mem
written_lem a payload header mem = fun_ext λ i. at_byte i (Bool-cases (leb a i && ltb i (a + n)))
  where
    n : ℕ
    n = length (packet payload header)

    at_byte :
        (i : ℕ)
        → ((leb a i && ltb i (a + n)) ≡ true) ⊎ ((leb a i && ltb i (a + n)) ≡ false)
        → written a payload header mem i ≡ overwritten a (packet payload header) mem i
    at_byte i (inl inside) =
        let e : a + (i - a) ≡ i = ground arith in
        rw (inside, ← written_inside a payload header mem (i - a) (ground arith), e)
    at_byte i (inr outside) = rw (outside) (written_outside a payload header mem i (ground arith))

module _ {k : ℕ} {s : TxSocket} (w : IsTx k s) (b : Build) (checks : b.checks ≡ true) where
  -- `send` on a valid TX socket, of a packet that is the header, if any, followed by the payload. With
  -- no slot available it gives `InvalidIndex`, and else with a packet longer than a frame
  -- `InvalidLength`; the socket and the UMEM are then as before. A packet of exactly `FRAME_SIZE`
  -- bytes panics. Any shorter packet is sent: it stands at the start of the frame that the first
  -- available descriptor names, no other byte of the UMEM has changed, the descriptor has the
  -- packet's length, and one slot is handed to the kernel. The safety checks are compiled in, the
  -- first descriptor names a frame of the UMEM, and the packet's length is a 64-bit number.
  pub send_lem :
      (mem : ℕ → ℕ) (payload : Bytes) (header : Option Bytes)
      → length (packet payload header) < u64_mod
      → IsFrame (desc_in s.x_ring (head k s 0)).addr
      → let n = length (packet payload header) in
        let a = (desc_in s.x_ring (head k s 0)).addr in
        send b s mem payload header ≡ (
          if leb s.available 0
          then done (err invalid_index, s, mem)
          else if ltb Const.frame_size n
          then done (err invalid_length, s, mem)
          else if n == Const.frame_size
          then panic
          else done
              (ok tt, committed 1 (peeked k s 0 n), overwritten a (packet payload header) mem))
  unfolding send tx_peek
  send_lem mem payload header word frame =
      let total = length-packet payload header in
      rw
        (
          add_word_fits b u64_mod (length payload) (header_len header) (omega (arith, total)),
          ← total,
          tx_peek_lem w b 0 n checks frame,
        )
        (elim (Bool-cases (leb s.available 0)) [
          | inl none_left ↦ rw none_left
          | inr room ↦ elim (Bool-cases (ltb Const.frame_size n)) [
            | inl long ↦ rw (room, long)
            | inr fits ↦ elim (Bool-cases (n == Const.frame_size)) [
              | inl whole ↦ rw (room, fits, whole)
              | inr part ↦
                  rw (room, fits, part) (filled room ∙ ap wrote (written_lem a payload header mem))
            ]
          ]
        ])
    where
      n : ℕ
      n = length (packet payload header)

      a : ℕ
      a = (desc_in s.x_ring (head k s 0)).addr

      wrote : (ℕ → ℕ) → Run Sent
      wrote m = done (ok tt, committed 1 (peeked k s 0 n), m)

      commit_one :
          (m : ℕ)
          → leb s.available 0 ≡ false
          → tx_commit_ b (peeked k s 0 m) 1 ≡ done (ok tt, committed 1 (peeked k s 0 m))
      commit_one m room =
          tx_commit_lem (peeked-IsTx w b 0 m) b 1 checks
          ∙ (let enough : ltb s.available 1 ≡ false = ground arith in rw enough)

      filled :
          leb s.available 0 ≡ false
          → fill_and_commit b payload header mem (ok (frame_of k s 0 n), peeked k s 0 n)
            ≡ wrote (written a payload header mem)
      filled room =
          rw (length-packet payload header) (
            copied b payload header mem a _ _
              (commit_one (length payload + header_len header) room))
