-- ===== src/Ring/Access.antt =====
-- Access to a mapped ring of `2 ^ k` entries: what each method of `Ring<T>` does, and where.
use native.Mathlib.Nat.{mod-eq_of_lt}
use xdp_rs.Prelude.{
  ℕ, ◌+◌, ◌-◌, ◌%◌, ◌^◌, ◌≤◌, ◌<◌, ◌≢◌, ◌≡◌, arith, bit_and, Build, done, length, get_or,
  length-set, get_elem?-eq-get_or, ◌∙◌,
}
use xdp_rs.Prelude.Words.{
  u32_mod, u64_mod, bit_and-mask, pow_pos, pow-lt_u32, add_word_fits, sub_word_fits,
}
use xdp_rs.Ring.{
  Ring, with_producer, with_consumer, with_desc, producer, consumer, update_producer,
  update_consumer, increment, mut_desc_at, desc_at,
}

-- A ring that is mapped, with `2 ^ k` entries.
pub record IsRing {T : Type 0} (k : ℕ) (r : Ring T) : Type 0 where
  pub small : k ≤ 31
  pub ptr : r.mmap.mmap.ptr ≢ 0
  pub len : r.len ≡ 2 ^ k
  pub mask : r.mod_mask ≡ 2 ^ k - 1
  pub area : length r.mmap.desc ≡ 2 ^ k

module _ {T : Type 0} {k : ℕ} {r : Ring T} (w : IsRing k r) where
  -- Masking an index gives its slot, whatever the index.
  pub slot : (i : ℕ) → bit_and i r.mod_mask ≡ i % 2 ^ k
  slot i = rw w.mask (bit_and-mask k i)

  pub slot-lt : (i : ℕ) → i % 2 ^ k < 2 ^ k
  slot-lt i = omega (arith, pow_pos k)

  pub desc_at-IsRing :
      (b : Build) (i : ℕ) (d : T) → i < 2 ^ k → desc_at b r i ≡ done (get_or r.mmap.desc i d)
  unfolding desc_at
  desc_at-IsRing b i d h = ground (arith, get_elem?-eq-get_or r.mmap.desc i d, w.area, w.len)

  pub mut_desc_at-IsRing :
      (b : Build) (i : ℕ) (f : T → T) (d : T)
      → i < 2 ^ k
      → mut_desc_at b r i f ≡ done (with_desc r i (f (get_or r.mmap.desc i d)))
  unfolding mut_desc_at
  mut_desc_at-IsRing b i f d h = ground (arith, get_elem?-eq-get_or r.mmap.desc i d, w.area, w.len)

  pub producer-IsRing : producer r ≡ done r.mmap.producer
  unfolding producer
  producer-IsRing = ground (arith, w.ptr)

  pub consumer-IsRing : consumer r ≡ done r.mmap.consumer
  unfolding consumer
  consumer-IsRing = ground (arith, w.ptr)

  pub update_producer-IsRing : (v : ℕ) → update_producer r v ≡ done (with_producer r v)
  unfolding update_producer
  update_producer-IsRing v = ground (arith, w.ptr)

  pub update_consumer-IsRing : (v : ℕ) → update_consumer r v ≡ done (with_consumer r v)
  unfolding update_consumer
  update_consumer-IsRing v = ground (arith, w.ptr)

  pub with_desc-IsRing : (i : ℕ) (v : T) → IsRing k (with_desc r i v)
  with_desc-IsRing i v = record {
    small = w.small;
    ptr = w.ptr;
    len = w.len;
    mask = w.mask;
    area = length-set r.mmap.desc i v ∙ w.area;
  }

  pub with_producer-IsRing : (v : ℕ) → IsRing k (with_producer r v)
  with_producer-IsRing v = record {
    small = w.small;
    ptr = w.ptr;
    len = w.len;
    mask = w.mask;
    area = w.area;
  }

  pub with_consumer-IsRing : (v : ℕ) → IsRing k (with_consumer r v)
  with_consumer-IsRing v = record {
    small = w.small;
    ptr = w.ptr;
    len = w.len;
    mask = w.mask;
    area = w.area;
  }

  -- `increment` steps to the next slot and goes round at the end of the ring, in every build.
  pub increment-IsRing : (b : Build) (v : ℕ) → v < 2 ^ k → increment b r v ≡ done ((v + 1) % 2 ^ k)
  unfolding increment
  increment-IsRing b v h = rw (
    add_word_fits b u32_mod v 1 (omega (arith, pow-lt_u32 k w.small)),
    w.len,
    sub_word_fits b u64_mod (2 ^ k) 1 (pow_pos k) (omega (arith, pow-lt_u32 k w.small)),
    small_mask,
    bit_and-mask k (v + 1),
  )
    where
      small_mask : (2 ^ k - 1) % u32_mod ≡ 2 ^ k - 1
      small_mask = mod-eq_of_lt (omega (arith, pow-lt_u32 k w.small, pow_pos k))
