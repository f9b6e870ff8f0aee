-- ===== src/Socket.antt =====
-- xdp-socket/src/socket.rs: the socket's state and construction. The methods stand in the modules
-- below, one for each file of xdp-socket/src.
pub mod Seek
pub mod Commit
pub mod Peek
pub mod Kick
pub mod Poll
pub mod Send
pub mod Api
pub mod Valid
pub mod Reclaim
pub mod Submit
pub mod Sending
pub mod Receive
pub mod Releasing
pub mod Refill
pub mod Fresh
pub mod Ownership
pub mod Waking
pub mod Blocking
pub mod Fetching
pub mod Tests
use xdp_rs.Prelude.{ℕ, Bool, true, false, Option, none, some, IoError}
use xdp_rs.Prelude.Words.{as_u32}
use xdp_rs.Mmap.{OwnedMmap}
use xdp_rs.Ring
use xdp_rs.Ring.{Ring, XdpDesc}

-- `_TX` and `_RX`
abbrev pub tx : Bool
tx = true

abbrev pub rx : Bool
rx = false

-- `Inner`: what a TX and an RX socket share through an `Arc`.
pub record Inner : Type 0 where
  pub umem : OwnedMmap
  pub fd : ℕ

-- `Socket<t>`. `frames` is a raw pointer: it is modelled by the number of bytes mapped there, 0
-- for null. `u_ring` is the Completion ring of a TX socket and the Fill ring of an RX socket.
pub record Socket (t : Bool) : Type 0 where
  pub inner : Option Inner
  pub x_ring : Ring XdpDesc
  pub u_ring : Ring ℕ
  pub available : ℕ
  pub producer : ℕ
  pub consumer : ℕ
  pub frames : ℕ
  pub raw_fd : ℕ

abbrev pub TxSocket : Type 0
TxSocket = Socket tx

abbrev pub RxSocket : Type 0
RxSocket = Socket rx

pub data RingError : Type 0 where
  ring_full ring_empty not_available invalid_index invalid_length : RingError
  io : IoError → RingError

-- `Default for Socket<t>`
abbrev pub default : (t : Bool) → Socket t
default t = record {
  inner = none;
  x_ring = Ring.default XdpDesc;
  u_ring = Ring.default ℕ;
  available = 0;
  producer = 0;
  consumer = 0;
  frames = 0;
  raw_fd = 0;
}

-- `Socket::new`
unfoldable pub new : (t : Bool) → Option Inner → Ring XdpDesc → Ring ℕ → Socket t
new t none x_ring u_ring = default t
new t (some inner) x_ring u_ring = record {
  frames = inner.umem.size;
  available = as_u32 x_ring.len;
  producer = 0;
  consumer = 0;
  raw_fd = inner.fd;
  inner = some inner;
  x_ring = x_ring;
  u_ring = u_ring;
}
