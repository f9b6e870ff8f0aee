-- ===== src/Socket/Tests/Sockets.antt =====
-- The data of the tests.
use xdp_rs.Prelude.{ℕ, refl, arith, List, [], ◌∷◌, some, Build, true}
use xdp_rs.Libc.{Libc}
use xdp_rs.Ring.{Ring, XdpDesc, new_desc}
use xdp_rs.Ring.Access.{IsRing}
use xdp_rs.Socket.{TxSocket, RxSocket, Inner}
use xdp_rs.Socket.Valid.{IsTx, IsRx}

abbrev pub build : Build
build = record { debug = true; checks = true }

abbrev pub libc : Libc
libc = record {
  xdp_ring_need_wakeup = 1;
  ebusy = 16;
  enobufs = 105;
  eagain = 11;
  enetdown = 100;
  pollin = 1;
  pollout = 4;
  map_failed = 0xffffffffffffffff;
  xdp_tx_ring = 3;
  xdp_rx_ring = 2;
  xdp_umem_fill_ring = 5;
  xdp_umem_completion_ring = 6;
  xdp_pgoff_tx_ring = 0x80000000;
  xdp_pgoff_rx_ring = 0;
  xdp_umem_pgoff_fill_ring = 0x100000000;
  xdp_umem_pgoff_completion_ring = 0x180000000;
  xdp_zerocopy = 4;
  xdp_copy = 2;
  xdp_use_need_wakeup = 8;
}

abbrev pub inner : Inner
inner = record { umem = record { ptr = 65536; size = 8388608 }; fd = 3 }

-- A ring of two descriptors, with a producer index.
abbrev pub descs : ℕ → List XdpDesc → Ring XdpDesc
descs producer area = record {
  mmap = record {
    mmap = record { ptr = 4096; size = 4096 };
    producer = producer;
    consumer = 0;
    desc = area;
    flags = 1;
  };
  len = 2;
  mod_mask = 1;
}

abbrev pub addrs : ℕ → List ℕ → Ring ℕ
addrs producer area = record {
  mmap = record {
    mmap = record { ptr = 8192; size = 4096 };
    producer = producer;
    consumer = 0;
    desc = area;
    flags = 0;
  };
  len = 2;
  mod_mask = 1;
}

pub descs-IsRing : (p : ℕ) (x y : XdpDesc) → IsRing 1 (descs p (x ∷ y ∷ []))
descs-IsRing p x y = record {
  small = omega arith;
  ptr = ground arith;
  len = refl;
  mask = refl;
  area = refl;
}

pub addrs-IsRing : (p x y : ℕ) → IsRing 1 (addrs p (x ∷ y ∷ []))
addrs-IsRing p x y = record {
  small = omega arith;
  ptr = ground arith;
  len = refl;
  mask = refl;
  area = refl;
}

-- Both slots are free.
abbrev pub tx_socket : TxSocket
tx_socket = record {
  inner = some inner;
  x_ring = descs 0 (new_desc 0 0 0 ∷ new_desc 2048 0 0 ∷ []);
  u_ring = addrs 0 (0 ∷ 0 ∷ []);
  available = 2;
  producer = 0;
  consumer = 0;
  frames = 8388608;
  raw_fd = 3;
}

pub tx_socket-IsTx : IsTx 1 tx_socket
tx_socket-IsTx = record {
  x = descs-IsRing 0 (new_desc 0 0 0) (new_desc 2048 0 0);
  u = addrs-IsRing 0 0 0;
  few = omega arith;
  room = omega arith;
  p_word = omega arith;
  c_word = omega arith;
  umem = omega arith;
}

-- Both packets were sent and completed, in order.
abbrev pub tx_completed : TxSocket
tx_completed = record {
  inner = some inner;
  x_ring = descs 2 (new_desc 0 60 0 ∷ new_desc 2048 60 0 ∷ []);
  u_ring = addrs 2 (0 ∷ 2048 ∷ []);
  available = 0;
  producer = 2;
  consumer = 0;
  frames = 8388608;
  raw_fd = 3;
}

pub tx_completed-IsTx : IsTx 1 tx_completed
tx_completed-IsTx = record {
  x = descs-IsRing 2 (new_desc 0 60 0) (new_desc 2048 60 0);
  u = addrs-IsRing 2 0 2048;
  few = omega arith;
  room = omega arith;
  p_word = omega arith;
  c_word = omega arith;
  umem = omega arith;
}

-- One packet of 60 bytes was received, and it is counted as available.
abbrev pub rx_socket : RxSocket
rx_socket = record {
  inner = some inner;
  x_ring = descs 1 (new_desc 2048 60 0 ∷ new_desc 0 0 0 ∷ []);
  u_ring = addrs 2 (0 ∷ 0 ∷ []);
  available = 1;
  producer = 2;
  consumer = 0;
  frames = 8388608;
  raw_fd = 3;
}

pub rx_socket-IsRx : IsRx 1 rx_socket
rx_socket-IsRx = record {
  x = descs-IsRing 1 (new_desc 2048 60 0) (new_desc 0 0 0);
  u = addrs-IsRing 2 0 0;
  few = omega arith;
  room = omega arith;
  p_word = omega arith;
  c_word = omega arith;
  umem = omega arith;
}

-- The same before the packet is counted.
abbrev pub rx_waiting : RxSocket
rx_waiting = record rx_socket { available = 0 }

pub rx_waiting-IsRx : IsRx 1 rx_waiting
rx_waiting-IsRx = record {
  x = descs-IsRing 1 (new_desc 2048 60 0) (new_desc 0 0 0);
  u = addrs-IsRing 2 0 0;
  few = omega arith;
  room = omega arith;
  p_word = omega arith;
  c_word = omega arith;
  umem = omega arith;
}
