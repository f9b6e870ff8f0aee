-- ===== src/Create/Rings.antt =====
-- The rings of a socket on a system that grants its calls.
use native.Mathlib.Nat.{mod-eq_of_lt, pow-le-pow_right}
use xdp_rs.Prelude.{
  ℕ, ◌+◌, ◌*◌, ◌^◌, ◌≤◌, ◌<◌, ◌≡◌, refl, arith, true, some, none, Build, done, ok, get_elem?, ltb,
  if◌then◌else◌,
}
use xdp_rs.Prelude.Words.{as_u32, pow_pos}
use xdp_rs.Libc.{Libc}
use xdp_rs.Ring.{Ring, XdpDesc, with_area, with_producer}
use xdp_rs.Ring.Const
use xdp_rs.Ring.Descs
use xdp_rs.Ring.Access.{IsRing, update_producer-IsRing, with_producer-IsRing}
use xdp_rs.Ring.Fill.{fill_addrs}
use xdp_rs.Ring.Mapping.{RingType, desc_entry, addr_entry, as_index, as_offset, is_power_of_two}
use xdp_rs.System.{MmapOffsets, Kernel, Process}
use xdp_rs.Create.{mapped_tx, mapped_rx}
use xdp_rs.Create.Honest.{Grants, size_set}
use xdp_rs.Prelude.{◌∷◌}
use xdp_rs.Create.Balance.{held}
use xdp_rs.Create.Dropped.{mapped}
use xdp_rs.Create.Steps.{ring_of, with_ring, ring_of-IsRing, mmap_type_lem}

module _ (c : Libc) (k : Kernel) (b : Build) (fd m : ℕ) (o : MmapOffsets) (p : Process)
    (grants : Grants c k) (power : is_power_of_two (2 ^ m) ≡ true) (small : m ≤ 20) where
  bounds : 2 ^ m < 2 ^ 31
  bounds =
      let p : 2 ^ m ≤ 2 ^ 20 = pow-le-pow_right {n = 2} (omega arith) {i = m} {j = 20} small in
      omega arith

  -- The TX side: two new rings, of which the TX ring is filled.
  pub mapped_tx_lem :
      size_set fd (as_index c RingType.completion) p.log ≡ 2 ^ m
      → size_set fd (as_index c RingType.tx) p.log ≡ 2 ^ m
      → o.cr.desc < 2 ^ 32
      → o.tx.desc < 2 ^ 32
      → (c_ring : Ring ℕ) × (tx_ring : Ring XdpDesc) × (p' : Process) × ((x' : Ring XdpDesc)
          → Descs.fill b tx_ring 0 ≡ done x'
          → mapped_tx c k b fd o (2 ^ m) p ≡ done (ok (c_ring, x'), p'))
        × IsRing m c_ring
        × (c_ring.mmap.producer ≡ 0)
        × IsRing m tx_ring
        × ((i : ℕ) → size_set fd i p'.log ≡ size_set fd i p.log)
        × (held p'.log ≡ mapped tx_ring.mmap.mmap ∷ mapped c_ring.mmap.mmap ∷ held p.log)
  mapped_tx_lem sc st lc lt =
      let ga = grants.addrs p.log fd (2 ^ m) RingType.completion o.cr sc in
      let size = o.cr.desc + 2 ^ m * 8 in
      let p1 = with_ring fd size (as_offset c RingType.completion) (ga.0) p in
      let gd = grants.descs p1.log fd (2 ^ m) RingType.tx o.tx st in
      let size' = o.tx.desc + 2 ^ m * 16 in
      let p2 = with_ring fd size' (as_offset c RingType.tx) (gd.0) p1 in
      let first =
        mmap_type_lem c k addr_entry RingType.completion b fd o (2 ^ m) (ga.0) p power (pow_pos m)
          (omega (arith, bounds)) (omega (arith, bounds)) (ga.1) in
      let second =
        mmap_type_lem c k desc_entry RingType.tx b fd o (2 ^ m) (gd.0) p1 power (pow_pos m)
          (omega (arith, bounds)) (omega (arith, bounds)) (gd.1) in
      (
        ring_of (2 ^ m) size (ga.0),
        ring_of (2 ^ m) size' (gd.0),
        p2,
        (λ x' filled. rw (first, second, filled)),
        ring_of-IsRing m size (ga.0) (omega arith) (ga.2) (ga.3),
        ga.4,
        ring_of-IsRing m size' (gd.0) (omega arith) (gd.2) (gd.3),
        (λ i. refl),
        refl,
      )

  -- The RX side: two new rings, of which the Fill ring is filled and handed over whole.
  pub mapped_rx_lem :
      (start : ℕ)
      → size_set fd (as_index c RingType.rx) p.log ≡ 2 ^ m
      → size_set fd (as_index c RingType.fill) p.log ≡ 2 ^ m
      → o.rx.desc < 2 ^ 32
      → o.fr.desc < 2 ^ 32
      → start + 2 ^ m ≤ 2 ^ 31
      → (rx_ring : Ring XdpDesc) × (f_ring : Ring ℕ) × (p' : Process) × (mapped_rx c k b fd o
            (2 ^ m)
            start
            p
          ≡ done (ok (rx_ring, f_ring), p'))
        × IsRing m rx_ring
        × (rx_ring.mmap.producer ≡ 0)
        × IsRing m f_ring
        × ((i : ℕ)
            → get_elem? f_ring.mmap.desc i
              ≡ (if ltb i (2 ^ m) then some ((i + start) * Const.frame_size) else none))
        × (f_ring.mmap.producer ≡ 2 ^ m)
        × (held p'.log ≡ mapped f_ring.mmap.mmap ∷ mapped rx_ring.mmap.mmap ∷ held p.log)
  mapped_rx_lem start sr sf lr lf fits =
      let gd = grants.descs p.log fd (2 ^ m) RingType.rx o.rx sr in
      let size = o.rx.desc + 2 ^ m * 16 in
      let p1 = with_ring fd size (as_offset c RingType.rx) (gd.0) p in
      let ga = grants.addrs p1.log fd (2 ^ m) RingType.fill o.fr sf in
      let size' = o.fr.desc + 2 ^ m * 8 in
      let p2 = with_ring fd size' (as_offset c RingType.fill) (ga.0) p1 in
      let first =
        mmap_type_lem c k desc_entry RingType.rx b fd o (2 ^ m) (gd.0) p power (pow_pos m)
          (omega (arith, bounds)) (omega (arith, bounds)) (gd.1) in
      let second =
        mmap_type_lem c k addr_entry RingType.fill b fd o (2 ^ m) (ga.0) p1 power (pow_pos m)
          (omega (arith, bounds)) (omega (arith, bounds)) (ga.1) in
      let w = ring_of-IsRing m size' (ga.0) (omega arith) (ga.2) (ga.3) in
      let filled = fill_addrs m b start (ring_of (2 ^ m) size' (ga.0)) w (omega arith) in
      let w' : IsRing m (with_area (ring_of (2 ^ m) size' (ga.0)) (filled.0)) = record {
        small = w.small;
        ptr = w.ptr;
        len = w.len;
        mask = w.mask;
        area = filled.2;
      } in
      let cut : as_u32 start ≡ start = mod-eq_of_lt (omega arith) in
      let cut' : as_u32 (2 ^ m) ≡ 2 ^ m = mod-eq_of_lt (omega (arith, bounds)) in
      (
        ring_of (2 ^ m) size (gd.0),
        with_producer (with_area (ring_of (2 ^ m) size' (ga.0)) (filled.0)) (2 ^ m),
        p2,
        rw (first, second, cut, filled.1, cut', update_producer-IsRing w' (2 ^ m)),
        ring_of-IsRing m size (gd.0) (omega arith) (gd.2) (gd.3),
        gd.4,
        with_producer-IsRing w' (2 ^ m),
        filled.3,
        refl,
        refl,
      )
