-- ===== src/Create.antt =====
-- xdp-socket/src/create.rs
pub mod Honest
pub mod Steps
pub mod Rings
pub mod Made
pub mod Both
pub mod Apart
pub mod Pair
pub mod Aliased
pub mod Counted
pub mod Dropped
pub mod Lifetime
pub mod Balance
pub mod Accounts
pub mod Parts
pub mod Released
pub mod Refused
pub mod Tests
use Prim.Native.Nat.{bit_or}
use xdp_rs.Prelude.{
  ℕ, zero, suc, ◌+◌, ◌*◌, ◌/◌, Bool, true, false, Option, none, some, Build, Run, done, Result, ok,
  err, IoError, other, ltb, if◌then◌else◌,
}
use xdp_rs.Prelude.Words.{as_u32}
use xdp_rs.Libc.{Libc}
use xdp_rs.Mmap
use xdp_rs.Mmap.{OwnedMmap, HugePageInfo}
use xdp_rs.Mmap.Owned.{scoped}
use xdp_rs.Ring
use xdp_rs.Ring.{Ring, XdpDesc, update_producer}
use xdp_rs.Ring.Addrs
use xdp_rs.Ring.Descs
use xdp_rs.Ring.Const
use xdp_rs.Ring.Mapping.{RingType, desc_entry, addr_entry, set_size, mmap_type}
use xdp_rs.Socket.{Inner, TxSocket, RxSocket, new}
use xdp_rs.System.{
  Call, Kernel, Process, Resource, area, descriptor, MmapOffsets, Sys, ◌>>=◌, ◌>>◌, pure, run,
  last_os_error, map_err, logged, acquired, after_run,
}

pub data Direction : Type 0 where
  tx rx both : Direction

pub record XdpConfig : Type 0 where
  pub zero_copy : Option Bool
  pub huge_page : Option Bool
  pub need_wakeup : Option Bool

-- `config.and_then(|cfg| …)` for the three fields
abbrev pub zero_copy_of : Option XdpConfig → Option Bool
zero_copy_of none = none
zero_copy_of (some cfg) = cfg.zero_copy

abbrev pub huge_page_of : Option XdpConfig → Option Bool
huge_page_of none = none
huge_page_of (some cfg) = cfg.huge_page

abbrev pub need_wakeup_of : Option XdpConfig → Option Bool
need_wakeup_of none = none
need_wakeup_of (some cfg) = cfg.need_wakeup

-- The sizes of the RX and the TX ring.
abbrev pub rx_ring_size : Direction → ℕ
rx_ring_size tx = 0
rx_ring_size rx = Const.frame_count
rx_ring_size both = Const.frame_count / 2

abbrev pub tx_ring_size : Direction → ℕ
tx_ring_size tx = Const.frame_count
tx_ring_size rx = 0
tx_ring_size both = Const.frame_count / 2

module _ (c : Libc) where
  abbrev pub zero_copy_flag : Option Bool → ℕ
  zero_copy_flag none = 0
  zero_copy_flag (some true) = c.xdp_zerocopy
  zero_copy_flag (some false) = c.xdp_copy

  abbrev pub need_wakeup_flag : Option Bool → ℕ
  need_wakeup_flag none = c.xdp_use_need_wakeup
  need_wakeup_flag (some true) = c.xdp_use_need_wakeup
  need_wakeup_flag (some false) = 0

  abbrev pub bind_flags : Option XdpConfig → ℕ
  bind_flags config =
      bit_or (need_wakeup_flag (need_wakeup_of config)) (zero_copy_flag (zero_copy_of config))

abbrev pub some_tx : Direction → Inner → Ring XdpDesc → Ring ℕ → Option TxSocket
some_tx rx inner x u = none
some_tx tx inner x u = some (new true (some inner) x u)
some_tx both inner x u = some (new true (some inner) x u)

abbrev pub some_rx : Direction → Inner → Ring XdpDesc → Ring ℕ → Option RxSocket
some_rx tx inner x u = none
some_rx rx inner x u = some (new false (some inner) x u)
some_rx both inner x u = some (new false (some inner) x u)

-- `tx_socket.ok_or_else(|| …)`
abbrev pub ok_or_else : {A : Type 0} → Option A → IoError → Sys A
ok_or_else none e p = done (err e, p)
ok_or_else (some a) e p = done (ok a, p)

module _ (c : Libc) (k : Kernel) where
  abbrev pub register_umem : ℕ → OwnedMmap → Sys (Unit {0})
  register_umem raw_fd umem p =
      logged (Call.register_umem raw_fd umem.ptr umem.size Const.frame_size)
        (map_err "Failed to register UMEM: "
          (last_os_error (k.register p.log raw_fd umem.ptr umem.size Const.frame_size)))
        p

  unfoldable pub ring_offsets : ℕ → Sys MmapOffsets
  ring_offsets raw_fd p =
      logged (Call.get_offsets raw_fd) (last_os_error (k.offsets p.log raw_fd)) p

  unfoldable pub open_socket : Sys ℕ
  open_socket p = acquired Call.socket descriptor (last_os_error (k.open_socket p.log)) p

  -- The Completion and TX rings, mapped unless the direction is RX.
  abbrev pub mapped_tx : Build → ℕ → MmapOffsets → ℕ → Sys (Ring ℕ × Ring XdpDesc)
  mapped_tx b raw_fd offsets n = do
    c_ring ← mmap_type c k addr_entry RingType.completion b raw_fd offsets n
    tx_ring ← mmap_type c k desc_entry RingType.tx b raw_fd offsets n
    filled ← run (Descs.fill b tx_ring 0)
    pure (c_ring, filled)

  unfoldable pub tx_rings : Build → ℕ → MmapOffsets → Direction → Sys (Ring ℕ × Ring XdpDesc)
  tx_rings b raw_fd offsets rx = pure (Ring.default ℕ, Ring.default XdpDesc)
  tx_rings b raw_fd offsets tx = mapped_tx b raw_fd offsets (tx_ring_size tx)
  tx_rings b raw_fd offsets both = mapped_tx b raw_fd offsets (tx_ring_size both)

  -- The RX and Fill rings, mapped unless the direction is TX.
  abbrev pub mapped_rx : Build → ℕ → MmapOffsets → ℕ → ℕ → Sys (Ring XdpDesc × Ring ℕ)
  mapped_rx b raw_fd offsets n start = do
    rx_ring ← mmap_type c k desc_entry RingType.rx b raw_fd offsets n
    f_ring ← mmap_type c k addr_entry RingType.fill b raw_fd offsets n
    filled ← run (Addrs.fill b f_ring (as_u32 start))
    handed ← run (update_producer filled (as_u32 filled.len))
    pure (rx_ring, handed)

  unfoldable pub rx_rings : Build → ℕ → MmapOffsets → Direction → Sys (Ring XdpDesc × Ring ℕ)
  rx_rings b raw_fd offsets tx = pure (Ring.default XdpDesc, Ring.default ℕ)
  rx_rings b raw_fd offsets rx = mapped_rx b raw_fd offsets (rx_ring_size rx) (tx_ring_size rx)
  rx_rings b raw_fd offsets both =
      mapped_rx b raw_fd offsets (rx_ring_size both) (tx_ring_size both)

  abbrev pub bind_socket : ℕ → ℕ → ℕ → ℕ → Sys (Unit {0})
  bind_socket raw_fd flags if_index if_queue p =
      logged (Call.bind raw_fd flags if_index if_queue)
        (map_err "Failed to bind: " (last_os_error (k.bind p.log raw_fd flags if_index if_queue))) p

  -- `if ring_size > 0 { ring_type.set_size(raw_fd, ring_size)? }`
  abbrev pub set_size_if : RingType → ℕ → ℕ → Sys (Unit {0})
  set_size_if t raw_fd zero = pure tt
  set_size_if t raw_fd (suc n) = set_size c k t raw_fd (suc n)

  unfoldable pub set_sizes : ℕ → Direction → Sys (Unit {0})
  unfolding set_size
  set_sizes raw_fd d = do
    set_size c k RingType.fill raw_fd (tx_ring_size d)
    set_size c k RingType.completion raw_fd (tx_ring_size d)
    set_size_if RingType.tx raw_fd (tx_ring_size d)
    set_size_if RingType.rx raw_fd (rx_ring_size d)

module _ (c : Libc) (k : Kernel) (info : Result HugePageInfo IoError) where
  -- The call of `OwnedMmap::mmap` in `setup_umem`.
  abbrev pub umem_area : Build → Option XdpConfig → Sys OwnedMmap
  umem_area b config p =
      after_run
        (λ r.
          acquired (λ (m : OwnedMmap). Call.map_umem m.ptr m.size)
            (λ (m : OwnedMmap). area m.ptr m.size) (map_err "Failed to allocate UMEM: " r) p)
        (Mmap.mmap k.page_size (λ n huge. last_os_error (k.map_memory p.log n huge)) b
          (Const.frame_count * Const.frame_size) (huge_page_of config) info)

  unfoldable pub setup_umem : Build → ℕ → Option XdpConfig → Sys OwnedMmap
  setup_umem b raw_fd config =
      scoped c (do umem ← umem_area b config; register_umem c k raw_fd umem; pure umem)

  unfoldable pub create_socket :
      Build → ℕ → ℕ → Direction → Option XdpConfig → Sys (Option TxSocket × Option RxSocket)
  create_socket b if_index if_queue direction config = scoped c (do
    fd ← open_socket c k
    umem ← setup_umem b fd config
    set_sizes c k fd direction
    offsets ← ring_offsets c k fd
    t ← tx_rings c k b fd offsets direction
    r ← rx_rings c k b fd offsets direction
    bind_socket c k fd (bind_flags c config) if_index if_queue
    let inner : Inner = record { umem = umem; fd = fd }
    pure (some_tx direction inner (t.1) (t.0), some_rx direction inner (r.0) (r.1)))

  unfoldable pub create_tx_socket : Build → ℕ → ℕ → Option XdpConfig → Sys TxSocket
  create_tx_socket b if_index if_queue config = do
    made ← create_socket b if_index if_queue tx config
    ok_or_else (made.0) (other "Failed to create Tx socket")

  unfoldable pub create_rx_socket : Build → ℕ → ℕ → Option XdpConfig → Sys RxSocket
  create_rx_socket b if_index if_queue config = do
    made ← create_socket b if_index if_queue rx config
    ok_or_else (made.1) (other "Failed to create Rx socket")

  unfoldable pub create_bi_socket : Build → ℕ → ℕ → Option XdpConfig → Sys (TxSocket × RxSocket)
  create_bi_socket b if_index if_queue config = do
    made ← create_socket b if_index if_queue both config
    t ← ok_or_else (made.0) (other "Failed to create Tx socket")
    r ← ok_or_else (made.1) (other "Failed to create Rx socket")
    pure (t, r)
