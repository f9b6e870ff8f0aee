-- ===== src/Create/Both.antt =====
-- The pair of sockets that `create_bi_socket` makes on a system that grants its calls.
use xdp_rs.Prelude.{
  ℕ, ◌+◌, ◌*◌, ◌^◌, ◌≤◌, ◌≡◌, refl, ◌∙◌, arith, List, [], ◌∷◌, Bool, Option, some, none, Build,
  done, Result, ok, IoError, get_elem?, ltb, if◌then◌else◌,
}
use xdp_rs.Libc.{Libc}
use xdp_rs.Mmap.{HugePageInfo, use_huge}
use xdp_rs.Ring.{Ring, XdpDesc}
use xdp_rs.Ring.Const
use xdp_rs.Socket.{TxSocket, RxSocket}
use xdp_rs.Socket.Valid.{IsRx}
use xdp_rs.Socket.Fresh.{new-IsRx, IsNew, new-IsNew}
use xdp_rs.Socket.Receive.{unread}
use xdp_rs.Socket.Ownership.Steps.{IsOwned}
use xdp_rs.Socket.Ownership.Start.{first_frames, fill-new-IsOwned}
use xdp_rs.System.{Call, set_ring_size, get_offsets, Kernel, Process}
use xdp_rs.Socket
use xdp_rs.Socket.{Inner, new}
use xdp_rs.Create.{
  both, XdpConfig, huge_page_of, bind_flags, set_sizes, open_socket, ring_offsets, tx_rings,
  rx_rings, create_socket, create_bi_socket,
}
use xdp_rs.Create.Honest.{Grants, IsNumbered, size_set}
use xdp_rs.Create.Steps.{after_socket, after_umem, new-available, setup_umem_lem}
use xdp_rs.Create.Dropped.{HoldsPair, new-HoldsPair}
use xdp_rs.Create.Made.{filled_mmap}
use xdp_rs.Create.Rings.{mapped_tx_lem, mapped_rx_lem}

-- The log after the sizes are set.
abbrev sizes_both : Libc → ℕ → List Call → List Call
sizes_both c fd log =
    set_ring_size fd c.xdp_rx_ring 2048
    ∷ set_ring_size fd c.xdp_tx_ring 2048
    ∷ set_ring_size fd c.xdp_umem_completion_ring 2048
    ∷ set_ring_size fd c.xdp_umem_fill_ring 2048
    ∷ log

-- The sizes that were set, by the number of the ring.
sizes_both_set :
    (c : Libc) (fd : ℕ) (log : List Call)
    → IsNumbered c
    → (size_set fd c.xdp_umem_completion_ring (sizes_both c fd log) ≡ 2048)
      × (size_set fd c.xdp_tx_ring (sizes_both c fd log) ≡ 2048)
      × (size_set fd c.xdp_rx_ring (sizes_both c fd log) ≡ 2048)
      × (size_set fd c.xdp_umem_fill_ring (sizes_both c fd log) ≡ 2048)
sizes_both_set c fd log numbered = (ground arith, ground arith, ground arith, ground arith)

new_unread :
    (inner : Inner) (x : Ring XdpDesc) (u : Ring ℕ)
    → x.mmap.producer ≡ 0
    → unread (new Socket.rx (some inner) x u) ≡ 0
unfolding new
new_unread inner x u start = rw start refl

new_u_ring :
    (inner : Inner) (x : Ring XdpDesc) (u : Ring ℕ) → (new Socket.rx (some inner) x u).u_ring ≡ u
unfolding new
new_u_ring inner x u = refl

module _ (c : Libc) (k : Kernel) (info : Result HugePageInfo IoError) (b : Build)
    (if_index if_queue q : ℕ) (config : Option XdpConfig) (huge : Bool) (p : Process)
    (grants : Grants c k) (numbered : IsNumbered c) (page : k.page_size ≡ 2 ^ q) (small : q ≤ 30)
    (settled : use_huge (huge_page_of config) info ≡ ok huge) where
  set_sizes_both :
      (fd : ℕ) (p : Process)
      → set_sizes c k fd both p ≡ done (ok tt, record p { log = sizes_both c fd p.log })
  unfolding set_sizes
  set_sizes_both fd p = rw (grants.sized, grants.sized, grants.sized, grants.sized)

  -- With every call granted, a UMEM page size of `2 ^ q` bytes, `q` at most 30, the four rings numbered
  -- apart, and the huge page setting decided, `create_bi_socket` returns a TX socket that owns each of
  -- the frames 0 to 2047 exactly once, all in available slots, and a valid RX socket with nothing unread,
  -- whose Fill ring of 2048 entries holds the addresses of the frames 2048 to 4095, all of them handed to
  -- the kernel; its own indices are 0, and it counts 2048 packets as available. Both sockets share one
  -- `Inner`, and besides what it held before, the process holds the areas of the four rings, the UMEM and
  -- the descriptor of the `Inner`, each once.
  pub create_bi_lem :
      (t : TxSocket) × (r : RxSocket) × (p' : Process) × (create_bi_socket c k info b if_index
          if_queue config p
        ≡ done (ok (t, r), p'))
      × IsOwned 11 (first_frames 2048) (record { socket = t; held = [] })
      × (t.available ≡ 2048)
      × IsRx 11 r
      × (unread r ≡ 0)
      × ((i : ℕ)
          → get_elem? r.u_ring.mmap.desc i
            ≡ (if ltb i 2048 then some ((i + 2048) * Const.frame_size) else none))
      × (r.u_ring.mmap.producer ≡ 2048)
      × HoldsPair t r p.log p'.log
      × IsNew 2048 r
  unfolding create_bi_socket create_socket open_socket ring_offsets tx_rings rx_rings
  create_bi_lem =
      let fd = grants.opened p.log in
      let p1 : Process = after_socket (fd.0) p in
      let u = setup_umem_lem c k info b (fd.0) q config huge p1 grants page small settled in
      let p2 : Process = after_umem (fd.0) (u.0) p1 in
      let log3 = sizes_both c (fd.0) p2.log in
      let o = grants.offs log3 (fd.0) in
      let p4 : Process = record { log = get_offsets (fd.0) ∷ log3; live = p2.live } in
      let sizes = sizes_both_set c (fd.0) p2.log numbered in
      let rings =
        mapped_tx_lem c k b (fd.0) 11 (o.0) p4 grants refl (omega arith) (sizes.0) (sizes.1) (o.5)
          (o.3) in
      let inner : Inner = record { umem = u.0; fd = fd.0 } in
      let made =
        fill-new-IsOwned 11 b inner (rings.1) (rings.0) (rings.6) (rings.4) (omega arith) (u.2)
          (rings.5) in
      let p5 = rings.2 in
      let others =
        mapped_rx_lem c k b (fd.0) 11 (o.0) p5 grants refl (omega arith) 2048
          (rings.7 c.xdp_rx_ring ∙ sizes.2) (rings.7 c.xdp_umem_fill_ring ∙ sizes.3) (o.2) (o.4)
          (omega arith) in
      let p6 = others.2 in
      let last = grants.bound p6.log (fd.0) (bind_flags c config) if_index if_queue in
      (
        new Socket.tx (some inner) (made.0) (rings.0),
        new Socket.rx (some inner) (others.0) (others.1),
        record p6 { log = Call.bind (fd.0) (bind_flags c config) if_index if_queue ∷ p6.log },
        rw (fd.1, u.1, set_sizes_both (fd.0) p2, o.1, rings.3 (made.0) (made.1), others.3, last),
        made.2,
        new-available 11 inner (made.0) (rings.0) made.2.valid,
        new-IsRx 11 inner (others.0) (others.1) (others.4) (others.6) (omega arith) (u.2),
        new_unread inner (others.0) (others.1) (others.5),
        (λ i. rw (new_u_ring inner (others.0) (others.1)) (others.7 i)),
        rw (new_u_ring inner (others.0) (others.1)) (others.8),
        new-HoldsPair inner (made.0) (others.0) (rings.0) (others.1) p.log
            (Call.bind (fd.0) (bind_flags c config) if_index if_queue ∷ p6.log)
            (rw
              (
                filled_mmap 11 b (rings.1) (made.0) (rings.6) (omega arith) (made.1),
                others.9,
                rings.8,
              )
              refl),
        new-IsNew 11 inner (others.0) (others.1) (others.4),
      )
