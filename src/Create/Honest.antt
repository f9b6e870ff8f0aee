-- ===== src/Create/Honest.antt =====
-- What the creation of a socket relies on: the documented behaviour of the system calls.
use xdp_rs.Prelude.{
  ℕ, ◌+◌, ◌*◌, ◌^◌, ◌<◌, ◌≡◌, ◌≢◌, arith, List, [], ◌∷◌, Bool, ◌&&◌, ok, length, ◌==◌,
  if◌then◌else◌,
}
use xdp_rs.Libc.{Libc}
use xdp_rs.Ring.{XdpDesc}
use xdp_rs.Ring.Mapping.{RingType, as_index, as_offset}
use xdp_rs.System.{
  Call, socket, map_umem, register_umem, set_ring_size, get_offsets, map_ring, bind, unmap, close,
  RingOffset, MmapOffsets, Area, Kernel,
}

-- The size that the last call has set for a ring of a socket; 0 before the first.
abbrev pub size_set : ℕ → ℕ → List Call → ℕ
size_set fd i [] = 0
size_set fd i (set_ring_size fd' i' n ∷ log) = if fd' == fd && i' == i then n else size_set fd i log
size_set fd i (socket n ∷ log) = size_set fd i log
size_set fd i (map_umem p n ∷ log) = size_set fd i log
size_set fd i (register_umem n p s f ∷ log) = size_set fd i log
size_set fd i (get_offsets n ∷ log) = size_set fd i log
size_set fd i (map_ring p n s o ∷ log) = size_set fd i log
size_set fd i (bind n f x q ∷ log) = size_set fd i log
size_set fd i (unmap p s ∷ log) = size_set fd i log
size_set fd i (close n ∷ log) = size_set fd i log

-- The four rings have different numbers.
pub record IsNumbered (c : Libc) : Type 0 where
  pub fill_completion : c.xdp_umem_fill_ring ≢ c.xdp_umem_completion_ring
  pub fill_tx : c.xdp_umem_fill_ring ≢ c.xdp_tx_ring
  pub fill_rx : c.xdp_umem_fill_ring ≢ c.xdp_rx_ring
  pub completion_tx : c.xdp_umem_completion_ring ≢ c.xdp_tx_ring
  pub completion_rx : c.xdp_umem_completion_ring ≢ c.xdp_rx_ring
  pub tx_rx : c.xdp_tx_ring ≢ c.xdp_rx_ring

-- A system on which no call fails for want of anything: a mapping of memory is given; a ring whose size
-- was set to `n` can be mapped with `n` entries, and the mapped ring is new: its indices are 0.
pub record Grants (c : Libc) (k : Kernel) : Type 0 where
  pub opened : (log : List Call) → (fd : ℕ) × (k.open_socket log ≡ ok fd)
  pub given : (log : List Call) (n : ℕ) (huge : Bool) → (p : ℕ) × (k.map_memory log n huge ≡ ok p)
  pub registered : (log : List Call) (fd p n f : ℕ) → k.register log fd p n f ≡ ok tt
  pub sized : (log : List Call) (fd i n : ℕ) → k.set_size log fd i n ≡ ok tt
  pub offs :
      (log : List Call) (fd : ℕ)
      → (o : MmapOffsets) × (k.offsets log fd ≡ ok o)
        × (o.rx.desc < 2 ^ 32)
        × (o.tx.desc < 2 ^ 32)
        × (o.fr.desc < 2 ^ 32)
        × (o.cr.desc < 2 ^ 32)
  pub descs :
      (log : List Call) (fd n : ℕ) (t : RingType) (o : RingOffset)
      → size_set fd (as_index c t) log ≡ n
      → (a : Area XdpDesc) × (k.map_descs log fd (o.desc + n * 16) (as_offset c t) o ≡ ok a)
        × (a.ptr ≢ 0)
        × (length a.desc ≡ n)
        × (a.producer ≡ 0)
        × (a.consumer ≡ 0)
  pub addrs :
      (log : List Call) (fd n : ℕ) (t : RingType) (o : RingOffset)
      → size_set fd (as_index c t) log ≡ n
      → (a : Area ℕ) × (k.map_addrs log fd (o.desc + n * 8) (as_offset c t) o ≡ ok a)
        × (a.ptr ≢ 0)
        × (length a.desc ≡ n)
        × (a.producer ≡ 0)
        × (a.consumer ≡ 0)
  pub bound : (log : List Call) (fd f x q : ℕ) → k.bind log fd f x q ≡ ok tt

pub size_set_self : (fd i n : ℕ) (log : List Call) → size_set fd i (set_ring_size fd i n ∷ log) ≡ n
size_set_self fd i n log = ground arith

pub size_set_other :
    (fd i j n : ℕ) (log : List Call)
    → i ≢ j
    → size_set fd i (set_ring_size fd j n ∷ log) ≡ size_set fd i log
size_set_other fd i j n log h = ground arith
