-- ===== src/Ring/Mapping.antt =====
-- The end of xdp-socket/src/ring.rs: the mapping of a ring, and the four types of ring.
use xdp_rs.Prelude.{
  ℕ, ◌+◌, ◌-◌, min, bit_and, Bool, not, ◌&&◌, List, Build, Result, debug_assert, mul_word, sub_word,
  ◌==◌, if◌then◌else◌,
}
use xdp_rs.Prelude.Words.{u32_mod, u64_mod, as_u32}
use xdp_rs.Libc.{Libc}
use xdp_rs.Ring.{RingMmap, XdpDesc, Ring}
use xdp_rs.System.{
  Call, map_ring, set_ring_size, RingOffset, MmapOffsets, Area, Kernel, area, Sys, ◌>>=◌, ◌>>◌,
  pure, run, last_os_error, logged, acquired,
}

-- What a ring's entries are: their size, and what mapping a ring of them comes to.
pub record Entry (T : Type 0) : Type 0 where
  pub size_of : ℕ
  pub map : Kernel → List Call → ℕ → ℕ → ℕ → RingOffset → Result (Area T) ℕ

abbrev pub desc_entry : Entry XdpDesc
desc_entry = record { size_of = 16; map = λ k. k.map_descs }

abbrev pub addr_entry : Entry ℕ
addr_entry = record { size_of = 8; map = λ k. k.map_addrs }

pub data RingType : Type 0 where
  tx rx fill completion : RingType

module _ (c : Libc) where
  abbrev pub as_index : RingType → ℕ
  as_index tx = c.xdp_tx_ring
  as_index rx = c.xdp_rx_ring
  as_index fill = c.xdp_umem_fill_ring
  as_index completion = c.xdp_umem_completion_ring

  abbrev pub as_offset : RingType → ℕ
  as_offset tx = c.xdp_pgoff_tx_ring
  as_offset rx = c.xdp_pgoff_rx_ring
  as_offset fill = c.xdp_umem_pgoff_fill_ring
  as_offset completion = c.xdp_umem_pgoff_completion_ring

-- `usize::is_power_of_two`
abbrev pub is_power_of_two : ℕ → Bool
is_power_of_two n = not (n == 0) && bit_and n (n - 1) == 0

-- The Fill and Completion rings have at least one entry.
abbrev pub at_least_one : RingType → ℕ → ℕ
at_least_one tx n = n
at_least_one rx n = n
at_least_one fill n = if n == 0 then 1 else n
at_least_one completion n = if n == 0 then 1 else n

-- The field of the offsets for a type of ring.
abbrev pub ring_offs : RingType → MmapOffsets → RingOffset
ring_offs tx o = o.tx
ring_offs rx o = o.rx
ring_offs fill o = o.fr
ring_offs completion o = o.cr

module _ (c : Libc) (k : Kernel) where
  -- `RingType::set_size`: the kernel reads 32 bits of the size.
  unfoldable pub set_size : RingType → ℕ → ℕ → Sys (Unit {0})
  set_size t raw_fd ring_size p =
      let n = as_u32 (at_least_one t ring_size) in
      logged (set_ring_size raw_fd (as_index c t) n)
        (last_os_error (k.set_size p.log raw_fd (as_index c t) n)) p

  module _ {T : Type 0} (e : Entry T) where
    -- `mmap_ring`. The sum of the sizes stops at the greatest 64-bit number.
    unfoldable pub mmap_ring : ℕ → ℕ → RingOffset → ℕ → Sys (RingMmap T)
    mmap_ring fd size offsets ring_type p =
        let map_size = min (offsets.desc + size) (u64_mod - 1) in
        (do
          a ←
              acquired (λ (a : Area T). map_ring a.ptr fd map_size ring_type)
                (λ (a : Area T). area a.ptr map_size)
                (last_os_error (e.map k p.log fd map_size ring_type offsets))
          pure (record {
            mmap = record { ptr = a.ptr; size = map_size };
            producer = a.producer;
            consumer = a.consumer;
            desc = a.desc;
            flags = a.flags;
          }))
          p

    -- `Ring::mmap`
    unfoldable pub mmap : Build → ℕ → ℕ → ℕ → RingOffset → Sys (Ring T)
    mmap b fd len ring_type offsets = do
      run (debug_assert b (is_power_of_two len))
      size ← run (mul_word b u64_mod len e.size_of)
      m ← mmap_ring fd size offsets ring_type
      mask ← run (sub_word b u32_mod (as_u32 len) 1)
      pure (record { mmap = m; len = len; mod_mask = mask })

    -- `RingType::mmap`
    unfoldable pub mmap_type : RingType → Build → ℕ → MmapOffsets → ℕ → Sys (Ring T)
    unfolding mmap mmap_ring
    mmap_type t b raw_fd offsets ring_size =
        mmap b raw_fd ring_size (as_offset c t) (ring_offs t offsets)
