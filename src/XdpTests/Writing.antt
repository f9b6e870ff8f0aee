-- ===== src/XdpTests/Writing.antt =====
-- The buffers of the example xdp_sender: what is written where.
use xdp_rs.Prelude.{
  ℕ, zero, suc, ◌+◌, ◌-◌, ◌*◌, ◌%◌, min, ◌≤◌, ◌<◌, ◌≡◌, refl, ◌∙◌, arith, Bool, true, false, List,
  [], ◌∷◌, done, Result, ok, IoError, length, ◌==◌, Bool-cases, ◌⊎◌, inl, inr,
}
use xdp_rs.Libc.{Libc}
use xdp_rs.Ring.Const
use xdp_rs.Ring.Access.{IsRing}
use xdp_rs.Ring.Descs.{Slice}
use xdp_rs.Socket.{TxSocket}
use xdp_rs.Socket.Kick.{Reply, kick}
use xdp_rs.Socket.Send.{write}
use xdp_rs.Socket.Sending.{write_outside}
use xdp_rs.Socket.Waking.{reported, asleep, as_io, kick_lem}
use xdp_rs.Socket.Ownership.Window.{times}
use xdp_rs.Socket.Ownership.Start.{first_frames}
use xdp_rs.MacByIfindex.{first_of}
use xdp_rs.XdpTests.Sender.{Memory, write_chunks}

length-first_of : (n : ℕ) (xs : List ℕ) → length (first_of n xs) ≤ n
length-first_of zero xs = omega arith
length-first_of (suc n) [] = omega arith
length-first_of (suc n) (x ∷ xs) = omega (arith, length-first_of n xs)

-- Writing to a buffer changes no other byte.
pub write_chunks_outside :
    (chunks : List (List ℕ)) (buf : Slice) (result : Result (Unit {0}) IoError) (mem : Memory)
    (i : ℕ)
    → (i < buf.start) ⊎ (buf.start + buf.len ≤ i)
    → (write_chunks chunks buf result mem).1 i ≡ mem i
write_chunks_outside [] buf result mem i h = refl
write_chunks_outside (chunk ∷ chunks) buf result mem i h =
    let n = min (length chunk) buf.len in
    let kept : write buf.start (first_of n chunk) mem i ≡ mem i =
      write_outside (first_of n chunk) buf.start i mem (omega (arith, length-first_of n chunk)) in
    elim (Bool-cases (n == length chunk)) [
      | inl whole ↦ rw whole (
          write_chunks_outside chunks (record { start = buf.start + n; len = buf.len - n }) result
            (write buf.start (first_of n chunk) mem) i (omega arith)
          ∙ kept)
      | inr cut ↦ rw cut kept
    ]

-- The frames of the UMEM do not overlap.
pub frames_aligned : (a n : ℕ) → 1 ≤ times a (first_frames n) → a % Const.frame_size ≡ 0
frames_aligned a zero h = absurd (omega arith)
frames_aligned a (suc n) h = elim (Bool-cases (n * Const.frame_size == a)) [
  | inl here ↦ ground arith
  | inr away ↦ frames_aligned a n (omega (arith, (rw away at h)))
]

pub kick_ends :
    (c : Libc) (sendto : ℕ → Reply) (k : ℕ) (s : TxSocket)
    → IsRing k s.x_ring
    → (r : Result (Unit {0}) IoError) × (called : Bool) × (kick c sendto s ≡ done (r, called))
kick_ends c sendto k s w = elim (Bool-cases (asleep c s)) [
  | inl sleeps ↦ (as_io (reported c (sendto s.raw_fd)), true, rw (kick_lem c sendto k s w, sleeps))
  | inr awake ↦ (ok tt, false, rw (kick_lem c sendto k s w, awake))
]
