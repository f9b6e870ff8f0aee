-- ===== src/Create/Made.antt =====
-- The TX socket that is made on a system that grants its calls.
use xdp_rs.Prelude.{
  ℕ, ◌^◌, ◌≤◌, ◌≡◌, refl, arith, List, [], ◌∷◌, Bool, Option, some, none, Build, done, Result, ok,
  IoError,
}
use xdp_rs.Libc.{Libc}
use xdp_rs.Mmap.{HugePageInfo, use_huge}
use xdp_rs.Ring.Const
use xdp_rs.Socket.{TxSocket, RxSocket}
use xdp_rs.Socket.Ownership.Steps.{IsOwned}
use xdp_rs.Socket.Ownership.Start.{first_frames, fill-new-IsOwned}
use xdp_rs.System.{Call, set_ring_size, get_offsets, Kernel, Process}
use xdp_rs.Socket
use xdp_rs.Socket.{Inner, new}
use xdp_rs.Create.{
  tx, XdpConfig, huge_page_of, bind_flags, set_sizes, open_socket, ring_offsets, tx_rings, rx_rings,
  create_socket, create_tx_socket,
}
use xdp_rs.Prelude.{sym, ap, ◌∙◌, done-injective, ◌<◌}
use xdp_rs.Prelude.Words.{u32_mod}
use xdp_rs.Ring.{Ring, XdpDesc, with_area}
use xdp_rs.Ring.Access.{IsRing}
use xdp_rs.Ring.Descs
use xdp_rs.Ring.Fill.{fill_descs}
use xdp_rs.Create.Dropped.{Holds, new-Holds}
use xdp_rs.Create.Honest.{Grants, IsNumbered}
use xdp_rs.Create.Steps.{after_socket, after_umem, new-available, setup_umem_lem}
use xdp_rs.Create.Rings.{mapped_tx_lem}

-- The log after the sizes are set.
abbrev sizes_tx : Libc → ℕ → List Call → List Call
sizes_tx c fd log =
    set_ring_size fd c.xdp_tx_ring 4096
    ∷ set_ring_size fd c.xdp_umem_completion_ring 4096
    ∷ set_ring_size fd c.xdp_umem_fill_ring 4096
    ∷ log

-- Filling a ring leaves its mapping alone.
pub filled_mmap :
    (m : ℕ) (b : Build) (x x' : Ring XdpDesc)
    → IsRing m x
    → 2 ^ m < u32_mod
    → Descs.fill b x 0 ≡ done x'
    → x'.mmap.mmap ≡ x.mmap.mmap
filled_mmap m b x x' w small ran =
    let filled = fill_descs m b 0 x w (omega (arith, small)) in
    let same : x' ≡ with_area x (filled.0) = done-injective (sym ran ∙ filled.1) in
    ap (λ (r : Ring XdpDesc). r.mmap.mmap) same

module _ (c : Libc) (k : Kernel) (info : Result HugePageInfo IoError) (b : Build)
    (if_index if_queue q : ℕ) (config : Option XdpConfig) (huge : Bool) (p : Process)
    (grants : Grants c k) (numbered : IsNumbered c) (page : k.page_size ≡ 2 ^ q) (small : q ≤ 30)
    (settled : use_huge (huge_page_of config) info ≡ ok huge) where
  set_sizes_tx :
      (fd : ℕ) (p : Process)
      → set_sizes c k fd tx p ≡ done (ok tt, record p { log = sizes_tx c fd p.log })
  unfolding set_sizes
  set_sizes_tx fd p = rw (grants.sized, grants.sized, grants.sized)

  pub create_socket_tx :
      (t : TxSocket) × (p' : Process) × (create_socket c k info b if_index if_queue tx config p
        ≡ done (ok (some t, none), p'))
      × IsOwned 12 (first_frames Const.frame_count) (record { socket = t; held = [] })
      × (t.available ≡ Const.frame_count)
      × Holds t p.log p'.log
  unfolding create_socket open_socket ring_offsets tx_rings rx_rings
  create_socket_tx =
      let fd = grants.opened p.log in
      let p1 : Process = after_socket (fd.0) p in
      let u = setup_umem_lem c k info b (fd.0) q config huge p1 grants page small settled in
      let p2 : Process = after_umem (fd.0) (u.0) p1 in
      let log3 = sizes_tx c (fd.0) p2.log in
      let o = grants.offs log3 (fd.0) in
      let p4 : Process = record { log = get_offsets (fd.0) ∷ log3; live = p2.live } in
      let rings =
        mapped_tx_lem c k b (fd.0) 12 (o.0) p4 grants refl (omega arith)
          (ground (arith, numbered.completion_tx, numbered.fill_completion, numbered.fill_tx))
          (ground (arith, numbered.completion_tx, numbered.fill_completion, numbered.fill_tx)) (o.5)
          (o.3) in
      let inner : Inner = record { umem = u.0; fd = fd.0 } in
      let made =
        fill-new-IsOwned 12 b inner (rings.1) (rings.0) (rings.6) (rings.4) (omega arith) (u.2)
          (rings.5) in
      let p5 = rings.2 in
      let last = grants.bound p5.log (fd.0) (bind_flags c config) if_index if_queue in
      (
        new Socket.tx (some inner) (made.0) (rings.0),
        record p5 { log = Call.bind (fd.0) (bind_flags c config) if_index if_queue ∷ p5.log },
        rw (fd.1, u.1, set_sizes_tx (fd.0) p2, o.1, rings.3 (made.0) (made.1), last),
        made.2,
        new-available 12 inner (made.0) (rings.0) made.2.valid,
        new-Holds inner (made.0) (rings.0) p.log
            (Call.bind (fd.0) (bind_flags c config) if_index if_queue ∷ p5.log)
            (rw (filled_mmap 12 b (rings.1) (made.0) (rings.6) (omega arith) (made.1)) (rings.8)),
      )

  -- With every call granted, a UMEM page size of `2 ^ q` bytes, `q` at most 30, the four rings numbered
  -- apart, and the huge page setting decided, `create_tx_socket` returns a socket that owns each of the
  -- 4096 frames of the UMEM exactly once, all of them in available slots.
  pub create_tx_lem :
      (t : TxSocket) × (p' : Process) × (create_tx_socket c k info b if_index if_queue config p
        ≡ done (ok t, p'))
      × IsOwned 12 (first_frames Const.frame_count) (record { socket = t; held = [] })
      × (t.available ≡ Const.frame_count)
  unfolding create_tx_socket
  create_tx_lem = let made = create_socket_tx in (made.0, made.1, rw (made.2), made.3, made.4)
