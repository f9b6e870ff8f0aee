-- ===== src/Create/Parts.antt =====
-- Each call of a creation keeps account of what the process holds.
use xdp_rs.Prelude.Words.{u32_mod, u64_mod, as_u32}
use xdp_rs.Ring.{update_producer}
use xdp_rs.Ring.Addrs
use xdp_rs.Ring.Descs
use xdp_rs.System.{map_ring}
use xdp_rs.Create.{tx_ring_size, rx_ring_size}
use xdp_rs.Ring.Mapping.{is_power_of_two, ring_offs, as_offset}
use xdp_rs.Prelude.{
  ℕ, min, ◌+◌, ◌-◌, debug_assert, mul_word, sub_word, ◌≡◌, refl, List, Build, Result, ok, err, zero,
  suc,
}
use xdp_rs.Libc.{Libc}
use xdp_rs.Mmap.{OwnedMmap}
use xdp_rs.Ring.Mapping.{Entry, RingType, desc_entry, addr_entry, mmap_type, mmap_ring, set_size}
use xdp_rs.System.{Call, area, RingOffset, Area, MmapOffsets, Kernel, last_os_error}
use xdp_rs.Create.{
  Direction, tx, rx, both, register_umem, ring_offsets, open_socket, mapped_tx, tx_rings, mapped_rx,
  rx_rings, bind_socket, set_size_if, set_sizes,
}
use xdp_rs.Create.Balance.{IsSane, IsReal}
use xdp_rs.Create.Accounts.{
  IsBalanced, pure-IsBalanced, run-IsBalanced, logged-Returns, acquired-Returns, bind-IsBalanced,
}

pub last_os_error-ok : {A : Type 0} (r : Result A ℕ) (a : A) → last_os_error r ≡ ok a → r ≡ ok a
last_os_error-ok (ok b) a h = cc
last_os_error-ok (err e) a h = cc

-- Mapping a ring of either entry, by what makes its mappings real.
module _ (c : Libc) (k : Kernel) where
  module _ {T : Type 0} (e : Entry T)
      (real : (log : List Call) (fd n t : ℕ) (o : RingOffset) (a : Area T)
        → e.map k log fd n t o ≡ ok a
        → IsReal c (area a.ptr n)) where
    mmap_ring-IsBalanced :
        (fd size : ℕ) (o : RingOffset) (t : ℕ) → IsBalanced c (mmap_ring c k e fd size o t)
    unfolding mmap_ring
    mmap_ring-IsBalanced fd size o t =
        bind-IsBalanced c
          (record {
            keeps = λ p h.
                acquired-Returns c
                  (λ (a : Area T). map_ring a.ptr fd (min (o.desc + size) (u64_mod - 1)) t)
                  (λ (a : Area T). area a.ptr (min (o.desc + size) (u64_mod - 1)))
                  (last_os_error (e.map k p.log fd (min (o.desc + size) (u64_mod - 1)) t o)) p
                  (λ a log. refl)
                  (λ a mapped. real p.log fd (min (o.desc + size) (u64_mod - 1)) t o a (
                    last_os_error-ok (e.map k p.log fd (min (o.desc + size) (u64_mod - 1)) t o) a
                      mapped))
                  h;
          })
          (λ a. pure-IsBalanced c _)

    mmap_type-IsBalanced :
        (t : RingType) (b : Build) (fd : ℕ) (o : MmapOffsets) (n : ℕ)
        → IsBalanced c (mmap_type c k e t b fd o n)
    unfolding mmap_type
    mmap_type-IsBalanced t b fd o n =
        bind-IsBalanced c (run-IsBalanced c (debug_assert b (is_power_of_two n))) (λ _.
          bind-IsBalanced c (run-IsBalanced c (mul_word b u64_mod n e.size_of)) (λ size.
            bind-IsBalanced c (mmap_ring-IsBalanced fd size (ring_offs t o) (as_offset c t)) (λ m.
              bind-IsBalanced c (run-IsBalanced c (sub_word b u32_mod (as_u32 n) 1))
                (λ mask. pure-IsBalanced c _))))

  set_size-IsBalanced : (t : RingType) (fd n : ℕ) → IsBalanced c (set_size c k t fd n)
  unfolding set_size
  set_size-IsBalanced t fd n = record { keeps = λ p h. logged-Returns c _ _ p (λ log. refl) h }

  set_size_if-IsBalanced : (t : RingType) (fd n : ℕ) → IsBalanced c (set_size_if c k t fd n)
  set_size_if-IsBalanced t fd zero = pure-IsBalanced c tt
  set_size_if-IsBalanced t fd (suc n) = set_size-IsBalanced t fd (suc n)

  pub set_sizes-IsBalanced : (fd : ℕ) (d : Direction) → IsBalanced c (set_sizes c k fd d)
  unfolding set_sizes
  set_sizes-IsBalanced fd d =
      bind-IsBalanced c (set_size-IsBalanced RingType.fill fd (tx_ring_size d)) (λ _.
        bind-IsBalanced c (set_size-IsBalanced RingType.completion fd (tx_ring_size d)) (λ _.
          bind-IsBalanced c (set_size_if-IsBalanced RingType.tx fd (tx_ring_size d))
            (λ _. set_size_if-IsBalanced RingType.rx fd (rx_ring_size d))))

  pub ring_offsets-IsBalanced : (fd : ℕ) → IsBalanced c (ring_offsets c k fd)
  unfolding ring_offsets
  ring_offsets-IsBalanced fd = record { keeps = λ p h. logged-Returns c _ _ p (λ log. refl) h }

  pub register-IsBalanced : (fd : ℕ) (m : OwnedMmap) → IsBalanced c (register_umem c k fd m)
  register-IsBalanced fd m = record { keeps = λ p h. logged-Returns c _ _ p (λ log. refl) h }

  pub bind_socket-IsBalanced : (fd f x q : ℕ) → IsBalanced c (bind_socket c k fd f x q)
  bind_socket-IsBalanced fd f x q = record { keeps = λ p h. logged-Returns c _ _ p (λ log. refl) h }

  pub open_socket-IsBalanced : IsBalanced c (open_socket c k)
  unfolding open_socket
  open_socket-IsBalanced = record {
    keeps = λ p h. acquired-Returns c _ _ _ p (λ fd log. refl) (λ fd _. tt) h;
  }

  module _ (sane : IsSane c k) where
    descs-IsBalanced :
        (t : RingType) (b : Build) (fd : ℕ) (o : MmapOffsets) (n : ℕ)
        → IsBalanced c (mmap_type c k desc_entry t b fd o n)
    descs-IsBalanced =
        mmap_type-IsBalanced desc_entry (λ log fd n t o a mapped. sane.descs log fd n t o a mapped)

    addrs-IsBalanced :
        (t : RingType) (b : Build) (fd : ℕ) (o : MmapOffsets) (n : ℕ)
        → IsBalanced c (mmap_type c k addr_entry t b fd o n)
    addrs-IsBalanced =
        mmap_type-IsBalanced addr_entry (λ log fd n t o a mapped. sane.addrs log fd n t o a mapped)

    mapped_tx-IsBalanced :
        (b : Build) (fd : ℕ) (o : MmapOffsets) (n : ℕ) → IsBalanced c (mapped_tx c k b fd o n)
    mapped_tx-IsBalanced b fd o n =
        bind-IsBalanced c (addrs-IsBalanced RingType.completion b fd o n) (λ u.
          bind-IsBalanced c (descs-IsBalanced RingType.tx b fd o n) (λ x.
            bind-IsBalanced c (run-IsBalanced c (Descs.fill b x 0)) (λ x'. pure-IsBalanced c _)))

    mapped_rx-IsBalanced :
        (b : Build) (fd : ℕ) (o : MmapOffsets) (n start : ℕ)
        → IsBalanced c (mapped_rx c k b fd o n start)
    mapped_rx-IsBalanced b fd o n start =
        bind-IsBalanced c (descs-IsBalanced RingType.rx b fd o n) (λ x.
          bind-IsBalanced c (addrs-IsBalanced RingType.fill b fd o n) (λ u.
            bind-IsBalanced c (run-IsBalanced c (Addrs.fill b u (as_u32 start))) (λ u'.
              bind-IsBalanced c (run-IsBalanced c (update_producer u' (as_u32 u'.len)))
                (λ handed. pure-IsBalanced c _))))

    pub tx_rings-IsBalanced :
        (b : Build) (fd : ℕ) (o : MmapOffsets) (d : Direction)
        → IsBalanced c (tx_rings c k b fd o d)
    unfolding tx_rings
    tx_rings-IsBalanced b fd o rx = pure-IsBalanced c _
    tx_rings-IsBalanced b fd o tx = mapped_tx-IsBalanced b fd o (tx_ring_size tx)
    tx_rings-IsBalanced b fd o both = mapped_tx-IsBalanced b fd o (tx_ring_size both)

    pub rx_rings-IsBalanced :
        (b : Build) (fd : ℕ) (o : MmapOffsets) (d : Direction)
        → IsBalanced c (rx_rings c k b fd o d)
    unfolding rx_rings
    rx_rings-IsBalanced b fd o tx = pure-IsBalanced c _
    rx_rings-IsBalanced b fd o rx = mapped_rx-IsBalanced b fd o (rx_ring_size rx) (tx_ring_size rx)
    rx_rings-IsBalanced b fd o both =
        mapped_rx-IsBalanced b fd o (rx_ring_size both) (tx_ring_size both)
