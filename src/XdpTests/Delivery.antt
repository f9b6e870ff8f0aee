-- ===== src/XdpTests/Delivery.antt =====
-- One round of the loop of xdp-tests/examples/xdp_sender.rs: it does not panic, and does not write to a
-- frame that is at the kernel.
use xdp_rs.Prelude.{
  ℕ, ◌+◌, ◌-◌, min, ◌≤◌, ◌<◌, ◌≡◌, ◌≢◌, ◌>>=◌, refl, ◌∙◌, arith, true, false, some, List, ◌++◌,
  Build, Run, done, Result, ok, err, IoError, other, length, ltb, leb, ◌==◌, Bool-cases, ◌⊎◌, inl,
  inr,
}
use xdp_rs.Prelude.Words.{u64_mod, add_word_fits}
use xdp_rs.Libc.{Libc}
use xdp_rs.Ring.Const
use xdp_rs.Ring.Bytes.{IsFrame}
use xdp_rs.Socket.{TxSocket}
use xdp_rs.Socket.Commit.{commit_}
use xdp_rs.Socket.Api.{commit}
use xdp_rs.Socket.Kick.{Reply}
use xdp_rs.Socket.Peek.{tx_peek_, tx_seek_and_peek}
use xdp_rs.Socket.Reclaim.{pending, after}
use xdp_rs.Socket.Send.{Bytes}
use xdp_rs.Socket.Submit.{committed, head, peeked, frame_of, tx_commit_lem, tx_peek_lem}
use xdp_rs.Socket.Ownership.Window.{window, times, times-window_self}
use xdp_rs.Socket.Ownership.Steps.{World, x_frame, IsOwned}
use xdp_rs.Socket.Ownership.Start.{first_frames, first_frames_once, first_frames-IsFrame}
use xdp_rs.Socket.Ownership.Exclusive.{sought_one, seek-IsOwned, handed-IsOwned}
use xdp_rs.Socket.Ownership.Peeking.{peeked-IsOwned, ready_in_all}
use xdp_rs.Packet.Header.{Fields, Written}
use xdp_rs.Create.Dropped.{Owns, owns}
use xdp_rs.XdpTests.Sender.{Memory, Round, write_chunks, written_to, peeked_at, send_packet}
use xdp_rs.XdpTests.Writing.{write_chunks_outside, frames_aligned, kick_ends}

-- A round that began with the frames `held` at the kernel and the bytes `mem` has returned: each
-- frame is in one place, and the frames that were at the kernel are as they were.
pub record Delivered (k n : ℕ) (held : List ℕ) (areas : Owns) (mem : Memory) (x : Run Round)
    : Type 0 where
  pub result : Result (Unit {0}) IoError
  pub world : World
  pub memory : Memory
  pub ran : x ≡ done (result, world.socket, memory)
  pub owned : IsOwned k (first_frames n) world
  pub same_areas : owns world.socket ≡ areas
  pub untouched : (a i : ℕ) → 1 ≤ times a held → a ≤ i → i < a + Const.frame_size → memory i ≡ mem i

module _ (c : Libc) (builder : Fields → List ℕ → Written) (sendto : ℕ → ℕ → Reply)
    (meanwhile : ℕ → TxSocket → TxSocket) (b : Build) (fields : List ℕ → Fields) (mac : List ℕ)
    (text : Bytes) (k n : ℕ) (few : n ≤ Const.frame_count) (checks : b.checks ≡ true)
    (short : 42 + length text < Const.frame_size) where
  abbrev len : ℕ
  len = 42 + length text

  -- The first slot's frame, with a slot available.
  first-IsFrame :
      {v : World}
      → IsOwned k (first_frames n) v
      → 1 ≤ v.socket.available
      → (1 ≤ times (x_frame v.socket (head k v.socket 0)) (first_frames n))
        × IsFrame (x_frame v.socket (head k v.socket 0))
  first-IsFrame {v} o room =
      let mine = ready_in_all b o 0 (omega arith) in (mine, first_frames-IsFrame _ n few mine)

  -- The end of a round, once the packet was written.
  end_of_round :
      (i : ℕ) (v : World) (mem : Memory)
      → IsOwned k (first_frames n) v
      → 1 ≤ v.socket.available
      → Delivered k n v.held
          (owns v.socket)
          mem
          (written_to c builder sendto meanwhile b fields (some mac) text i v.socket (ok tt, mem))
  unfolding commit commit_
  end_of_round i v mem o room =
      let enough : ltb v.socket.available 1 ≡ false = ground arith in
      let o' = handed-IsOwned b 1 o room in
      let kicked = kick_ends c (sendto i) k (committed 1 v.socket) o'.valid.x in
      record {
        result = kicked.0;
        world = record {
          socket = committed 1 v.socket;
          held = window k (x_frame v.socket) v.socket.producer 1 ++ v.held;
        };
        memory = mem;
        ran = rw (tx_commit_lem o.valid b 1 checks, enough, kicked.2);
        owned = o';
        same_areas = refl;
        untouched = λ a j h lo hi. refl;
      }

  written_lem :
      (i : ℕ) (v : World) (mem mem' : Memory) (r : Result (Unit {0}) IoError)
      → IsOwned k (first_frames n) v
      → 1 ≤ v.socket.available
      → ((a j : ℕ) → 1 ≤ times a v.held → a ≤ j → j < a + Const.frame_size → mem' j ≡ mem j)
      → Delivered k n v.held
          (owns v.socket)
          mem
          (written_to c builder sendto meanwhile b fields (some mac) text i v.socket (r, mem'))
  written_lem i v mem mem' (err e) o room far = record {
    result = err (other "Error writing packet header: ");
    world = v;
    memory = mem';
    ran = refl;
    owned = o;
    same_areas = refl;
    untouched = far;
  }
  written_lem i v mem mem' (ok _) o room far =
      let rest = end_of_round i v mem' o room in
      record {
        result = rest.result;
        world = rest.world;
        memory = rest.memory;
        ran = rest.ran;
        owned = rest.owned;
        same_areas = rest.same_areas;
        untouched = λ a j h lo hi. rest.untouched a j h lo hi ∙ far a j h lo hi;
      }

  -- A frame at the kernel is not that of an available slot, and does not overlap it.
  apart :
      (v : World) (a j : ℕ)
      → IsOwned k (first_frames n) v
      → 1 ≤ v.socket.available
      → 1 ≤ times a v.held
      → a ≤ j
      → j < a + Const.frame_size
      → (j < x_frame v.socket (head k v.socket 0))
        ⊎ (x_frame v.socket (head k v.socket 0) + len ≤ j)
  apart v a j o room h lo hi =
      let f = x_frame v.socket (head k v.socket 0) in
      let f_frame = frames_aligned f n ((first-IsFrame o room).0) in
      let a_frame = frames_aligned a n (omega (arith, o.conserved a)) in
      let mine =
        times-window_self k (x_frame v.socket) f v.socket.producer v.socket.available 0 room refl in
      elim (Bool-cases (a == f)) [
        | inl same ↦
            let e : a ≡ f = ground arith in
            absurd (omega (arith, mine, o.conserved f, first_frames_once f n, (rw e at h)))
        | inr differ ↦ let e : a ≢ f = ground arith in omega arith
      ]

  -- From the buffer on.
  fill_frame :
      (i : ℕ) (v : World) (mem : Memory)
      → IsOwned k (first_frames n) v
      → 1 ≤ v.socket.available
      → Delivered k n v.held (owns v.socket) mem (
          peeked_at c builder sendto meanwhile b fields
            (some mac)
            text
            i
            mem
            (ok (frame_of k v.socket 0 len), peeked k v.socket 0 len))
  fill_frame i v mem o room =
      let w = (builder (fields mac) text) in
      let bf = frame_of k v.socket 0 len in
      let filled = write_chunks w.chunks bf w.result mem in
      written_lem i (record { socket = peeked k v.socket 0 len; held = v.held }) mem (filled.1)
        (filled.0) (peeked-IsOwned b o 0 len) room
        λ a j h lo hi. write_chunks_outside w.chunks bf w.result mem j (apart v a j o room h lo hi)

  -- `seek_and_peek`, with what follows.
  found_frame :
      (i : ℕ) (v : World) (mem : Memory)
      → IsOwned k (first_frames n) v
      → 1 ≤ v.socket.available
      → Delivered k n v.held (owns v.socket) mem (do
        p ← tx_peek_ b v.socket 0 len
        peeked_at c builder sendto meanwhile b fields (some mac) text i mem p)
  found_frame i v mem o room =
      let inside : leb v.socket.available 0 ≡ false = ground arith in
      let fits : ltb Const.frame_size len ≡ false = ground arith in
      let part : (len == Const.frame_size) ≡ false = ground arith in
      rw (tx_peek_lem o.valid b 0 len checks ((first-IsFrame o room).1), inside, fits, part)
        (fill_frame i v mem o room)

  -- One round of the loop on a socket in use, with a packet shorter than a frame and a next hop whose MAC
  -- address is known, returns in every build, with success or an error, whatever the packet builder
  -- writes and whatever the wakeup comes to: each of the first `n` frames of the UMEM, `n` at most
  -- `FRAME_COUNT`, is then in one place again, and no byte of a frame that was at the kernel has
  -- changed. The socket owned those frames, each once, and the safety checks are compiled in.
  pub send_packet_lem :
      (i : ℕ) (v : World) (mem : Memory)
      → IsOwned k (first_frames n) v
      → Delivered k n v.held
          (owns v.socket)
          mem
          (send_packet c builder sendto meanwhile b fields (some mac) text i v.socket mem)
  unfolding send_packet tx_seek_and_peek
  send_packet_lem i v mem o =
      let word = add_word_fits b u64_mod 42 (length text) (omega arith) in
      elim (Bool-cases (leb 1 v.socket.available)) [
        | inl room ↦ rw (word, sought_one b o, room) (found_frame i v mem o (ground arith))
        | inr short ↦ elim (Bool-cases (pending v.socket == 0)) [
          | inl nothing ↦
              rw (word, sought_one b o, short, nothing)
                (record {
                  result = err (other "Failed to seek and peek: ");
                  world = v;
                  memory = mem;
                  ran = refl;
                  owned = o;
                  same_areas = refl;
                  untouched = λ a j h lo hi. refl;
                })
          | inr more ↦
              let one : min (1 - v.socket.available) (pending v.socket) ≡ 1 = ground arith in
              let found = sought_one b o in
              let o' : IsOwned k (first_frames n)
                  (record { socket = after k 1 v.socket; held = v.held }) =
                seek-IsOwned {r = ok (v.socket.available + 1)} b o
                  (rw (found, short, more, one) refl) in
              rw (word, sought_one b o, short, more, one)
                (found_frame i (record { socket = after k 1 v.socket; held = v.held }) mem o'
                  (omega arith))
        ]
      ]
