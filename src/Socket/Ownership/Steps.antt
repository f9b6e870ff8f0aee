-- ===== src/Socket/Ownership/Steps.antt =====
-- The steps of a TX socket and the kernel, one after another.
use xdp_rs.Prelude.{
  ℕ, ◌+◌, ◌%◌, ◌^◌, ◌<◌, ◌≡◌, List, [], ◌∷◌, ◌++◌, Build, done, Result, ok, err, length, get_or,
  set,
}
use xdp_rs.Prelude.Words.{u32_mod, as_u32, wrapping_add}
use xdp_rs.Ring.Bytes.{desc_in}
use xdp_rs.Socket.{TxSocket, RingError}
use xdp_rs.Socket.Seek.{tx_seek_}
use xdp_rs.Socket.Commit.{tx_commit_}
use xdp_rs.Socket.Peek.{tx_peek_}
use xdp_rs.Socket.Reclaim.{pending}
use xdp_rs.Socket.Valid.{IsTx}
use xdp_rs.Ring.Descs.{Slice}
use xdp_rs.Socket.Ownership.Window.{window, times}

-- A socket, and the frames that were handed to the kernel and have not come back.
pub record World : Type 0 where
  pub socket : TxSocket
  pub held : List ℕ

-- The frame that a slot of the TX ring names, and the one in a slot of the Completion ring.
abbrev pub x_frame : TxSocket → ℕ → ℕ
x_frame s i = (desc_in s.x_ring i).addr

abbrev pub u_frame : TxSocket → ℕ → ℕ
u_frame s i = get_or s.u_ring.mmap.desc i 0

-- The frames that the program may write to: those of the available slots.
abbrev pub ready : ℕ → TxSocket → List ℕ
ready k s = window k (x_frame s) s.producer s.available

-- The frames on the Completion ring that the socket has not taken back.
abbrev pub finished : ℕ → TxSocket → List ℕ
finished k s = window k (u_frame s) s.consumer (pending s)

-- The frames that a commit of `n` slots hands over, if it succeeds.
abbrev pub handed : ℕ → TxSocket → ℕ → Result (Unit {0}) RingError → List ℕ
handed k s n (ok _) = window k (x_frame s) s.producer (as_u32 n)
handed k s n (err _) = []

-- What the kernel does to a TX socket's rings when it completes a packet: a frame `a` that it held
-- goes to the next slot of the Completion ring, and the ring's producer index moves on. It leaves the
-- TX ring's descriptors and everything private to the process alone; the TX ring's consumer index
-- and the flags may change.
pub record Completes (k : ℕ) (v v' : World) : Type 0 where
  pub a : ℕ
  pub gave : (x : ℕ) → times x v.held ≡ times x (a ∷ v'.held)
  pub fewer : length v.held ≡ length v'.held + 1
  pub put :
      v'.socket.u_ring.mmap.desc
      ≡ set v.socket.u_ring.mmap.desc (v.socket.u_ring.mmap.producer % 2 ^ k) a
  pub index : v'.socket.u_ring.mmap.producer ≡ wrapping_add v.socket.u_ring.mmap.producer 1
  pub u_ptr : v'.socket.u_ring.mmap.mmap ≡ v.socket.u_ring.mmap.mmap
  pub u_len : v'.socket.u_ring.len ≡ v.socket.u_ring.len
  pub u_mask : v'.socket.u_ring.mod_mask ≡ v.socket.u_ring.mod_mask
  pub x_desc : v'.socket.x_ring.mmap.desc ≡ v.socket.x_ring.mmap.desc
  pub x_ptr : v'.socket.x_ring.mmap.mmap ≡ v.socket.x_ring.mmap.mmap
  pub x_len : v'.socket.x_ring.len ≡ v.socket.x_ring.len
  pub x_mask : v'.socket.x_ring.mod_mask ≡ v.socket.x_ring.mod_mask
  pub available : v'.socket.available ≡ v.socket.available
  pub producer : v'.socket.producer ≡ v.socket.producer
  pub consumer : v'.socket.consumer ≡ v.socket.consumer
  pub frames : v'.socket.frames ≡ v.socket.frames
  pub inner : v'.socket.inner ≡ v.socket.inner

-- One step: a call of the program that returns, or a step of the kernel. The program seeks one slot
-- at a time.
pub data Step (k : ℕ) (b : Build) (kernel : World → World → Type 0) : World → World → Type 0 where
  seek :
      {v : World} {r : Result ℕ RingError} {s : TxSocket}
      → tx_seek_ b v.socket 1 ≡ done (r, s)
      → Step k b kernel v (record { socket = s; held = v.held })
  peek :
      {v : World} {s : TxSocket} (index len : ℕ) (r : Result Slice RingError)
      → tx_peek_ b v.socket index len ≡ done (r, s)
      → Step k b kernel v (record { socket = s; held = v.held })
  commit :
      {v : World} {s : TxSocket} (n : ℕ) (r : Result (Unit {0}) RingError)
      → tx_commit_ b v.socket n ≡ done (r, s)
      → Step k b kernel v (record { socket = s; held = handed k v.socket n r ++ v.held })
  kernel_step : {v v' : World} → kernel v v' → Step k b kernel v v'

pub data Reach (k : ℕ) (b : Build) (kernel : World → World → Type 0) (v : World)
    : World → Type 0 where
  here : Reach k b kernel v v
  next : {u u' : World} → Reach k b kernel v u → Step k b kernel u u' → Reach k b kernel v u'

-- What holds between two steps, where the socket began with the frames `all`: every frame is in one
-- place, as often as in `all`.
pub record IsOwned (k : ℕ) (all : List ℕ) (v : World) : Type 0 where
  pub valid : IsTx k v.socket
  pub word : v.socket.u_ring.mmap.producer < u32_mod
  pub balance : v.socket.available + pending v.socket + length v.held ≡ 2 ^ k
  pub conserved :
      (a : ℕ)
      → times a (ready k v.socket) + times a (finished k v.socket) + times a v.held ≡ times a all
