-- ===== src/Create/Refused.antt =====
-- The creation of an RX socket on a system that does not map more of a ring than it has.
use xdp_rs.Prelude.{err, os, min, ◌-◌, debug_assert-true}
use xdp_rs.Prelude.Words.{u64_mod, mul_word_fits}
use xdp_rs.Mmap.Owned.{release}
use xdp_rs.System.{MmapOffsets, RingOffset}
use xdp_rs.Ring.Mapping.{
  Entry, as_offset, ring_offs, is_power_of_two, mmap_type, desc_entry, addr_entry,
}
use xdp_rs.Create.{rx, create_rx_socket}
use xdp_rs.Create.Steps.{after_socket, after_umem, mmap_type_lem, with_ring}
use xdp_rs.Prelude.{
  ℕ, ◌+◌, ◌*◌, ◌^◌, ◌≤◌, ◌<◌, ◌≡◌, refl, arith, List, ◌∷◌, Bool, true, Option, Build, done, Result,
  ok, IoError, length,
}
use xdp_rs.Libc.{Libc}
use xdp_rs.Mmap.{HugePageInfo, use_huge}
use xdp_rs.Ring.Mapping.{RingType}
use xdp_rs.System.{Call, set_ring_size, get_offsets, Kernel, Process}
use xdp_rs.Create.{
  XdpConfig, huge_page_of, set_sizes, open_socket, ring_offsets, tx_rings, rx_rings, create_socket,
}
use xdp_rs.Create.Honest.{Grants, IsNumbered, size_set}
use xdp_rs.Create.Steps.{setup_umem_lem}

-- The log after the sizes are set: `tx_ring_size` is 0, which stands for 1 entry.
abbrev sizes_rx : Libc → ℕ → List Call → List Call
sizes_rx c fd log =
    set_ring_size fd c.xdp_rx_ring 4096
    ∷ set_ring_size fd c.xdp_umem_completion_ring 1
    ∷ set_ring_size fd c.xdp_umem_fill_ring 1
    ∷ log

sizes_rx_set :
    (c : Libc) (fd : ℕ) (log : List Call)
    → IsNumbered c
    → (size_set fd c.xdp_rx_ring (sizes_rx c fd log) ≡ 4096)
      × (size_set fd c.xdp_umem_fill_ring (sizes_rx c fd log) ≡ 1)
sizes_rx_set c fd log numbered = (ground arith, ground arith)

-- A ring of one entry takes one page of 4096 bytes, and no more than that can be mapped.
pub record Refuses (c : Libc) (k : Kernel) (e : ℕ) : Type 0 where
  pub header :
      (log : List Call) (fd : ℕ) (o : MmapOffsets) → k.offsets log fd ≡ ok o → o.fr.desc + 8 ≤ 4096
  pub one_page :
      (log : List Call) (fd size : ℕ) (o : RingOffset)
      → size_set fd c.xdp_umem_fill_ring log ≡ 1
      → o.desc + 8 ≤ 4096
      → 4096 < size
      → k.map_addrs log fd size c.xdp_umem_pgoff_fill_ring o ≡ err e

mmap_refused :
    (c : Libc) (k : Kernel) {T : Type 0} (en : Entry T) (t : RingType) (b : Build) (fd : ℕ)
    (o : MmapOffsets) (n : ℕ) (e : ℕ) (p : Process)
    → is_power_of_two n ≡ true
    → (ring_offs t o).desc + n * en.size_of < u64_mod
    → en.map k p.log fd ((ring_offs t o).desc + n * en.size_of) (as_offset c t) (ring_offs t o)
      ≡ err e
    → mmap_type c k en t b fd o n p ≡ done (err (os e), p)
unfolding mmap_type
mmap_refused c k en t b fd o n e p power small refused =
    let whole : min ((ring_offs t o).desc + n * en.size_of) (u64_mod - 1)
        ≡ (ring_offs t o).desc + n * en.size_of =
      omega arith in
    rw (
      power,
      debug_assert-true b,
      mul_word_fits b u64_mod n en.size_of (omega arith),
      whole,
      refused,
    )

module _ (c : Libc) (k : Kernel) (info : Result HugePageInfo IoError) (b : Build)
    (if_index if_queue q : ℕ) (config : Option XdpConfig) (huge : Bool) (p : Process)
    (grants : Grants c k) (numbered : IsNumbered c) (page : k.page_size ≡ 2 ^ q) (small : q ≤ 30)
    (e : ℕ) (refuses : Refuses c k e)
    (settled : use_huge (huge_page_of config) info ≡ ok huge) where
  set_sizes_rx :
      (fd : ℕ) (p : Process)
      → set_sizes c k fd rx p ≡ done (ok tt, record p { log = sizes_rx c fd p.log })
  unfolding set_sizes
  set_sizes_rx fd p = rw (grants.sized, grants.sized, grants.sized)

  -- With every call granted but one, a UMEM page size of `2 ^ q` bytes, `q` at most 30, the four rings
  -- numbered apart, and the huge page setting decided: if the kernel answers with the error number `e`
  -- whenever more than one page of 4096 bytes of a Fill ring of one entry is mapped, whose entries begin
  -- at an offset of at most 4088, then `create_rx_socket` always fails with that error.
  pub create_rx_refused :
      (p' : Process) × (create_rx_socket c k info b if_index if_queue config p
        ≡ done (err (os e), p'))
  unfolding create_rx_socket create_socket open_socket ring_offsets tx_rings rx_rings
  create_rx_refused =
      let fd = grants.opened p.log in
      let p1 : Process = after_socket (fd.0) p in
      let u = setup_umem_lem c k info b (fd.0) q config huge p1 grants page small settled in
      let p2 : Process = after_umem (fd.0) (u.0) p1 in
      let log3 = sizes_rx c (fd.0) p2.log in
      let o = grants.offs log3 (fd.0) in
      let p4 : Process = record { log = get_offsets (fd.0) ∷ log3; live = p2.live } in
      let sizes = sizes_rx_set c (fd.0) p2.log numbered in
      let gd = grants.descs p4.log (fd.0) 4096 RingType.rx o.0.rx (sizes.0) in
      let first =
        mmap_type_lem c k desc_entry RingType.rx b (fd.0) (o.0) 4096 (gd.0) p4 refl (omega arith)
          (omega arith) (omega (arith, o.2)) (gd.1) in
      let p5 = with_ring (fd.0) (o.0.rx.desc + 4096 * 16) c.xdp_pgoff_rx_ring (gd.0) p4 in
      let head = refuses.header log3 (fd.0) (o.0) (o.1) in
      let second =
        mmap_refused c k addr_entry RingType.fill b (fd.0) (o.0) 4096 e p5 refl
          (omega (arith, head))
          (refuses.one_page p5.log (fd.0) (o.0.fr.desc + 4096 * 8) o.0.fr (sizes.1) head
            (omega arith)) in
      (
        release c (length p5.live - length p.live) p5.live p5.log,
        rw (fd.1, u.1, set_sizes_rx (fd.0) p2, o.1, first, second),
      )
