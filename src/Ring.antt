-- ===== src/Ring.antt =====
-- xdp-socket/src/ring.rs: the rings that a socket shares with the kernel. A pointer into the
-- mapped area is modelled by what stands in the area, so a record of this file is the state of
-- that memory too; a function that writes through `&mut self` returns the new ring.
pub mod Const
pub mod Addrs
pub mod Descs
pub mod Access
pub mod Fill
pub mod Bytes
pub mod Mapping
mod Tests
use xdp_rs.Prelude.{
  ℕ, zero, suc, ◌+◌, bit_and, Bool, not, ◌&&◌, List, [], Option, some, none, Build, Run, done,
  fault, ◌>>=◌, ◌>>◌, debug_assert, add_word, sub_word, mul_word, deref, ltb, ◌==◌, if◌then◌else◌,
  get_elem?, set,
}
use xdp_rs.Prelude.Words.{u32_mod, u64_mod, as_u32}
use xdp_rs.Mmap.{OwnedMmap}
use xdp_rs.Ring.Const

-- The memory of a mapped ring: the values behind the pointers `producer`, `consumer`, `desc` and
-- `flags`. `desc` is the descriptor area, empty where the pointer is null.
pub record RingMmap (T : Type 0) : Type 0 where
  pub mmap : OwnedMmap
  pub producer : ℕ
  pub consumer : ℕ
  pub desc : List T
  pub flags : ℕ

-- `XdpDesc`, a packet descriptor of the TX and RX rings.
pub record XdpDesc : Type 0 where
  pub addr : ℕ
  pub len : ℕ
  pub options : ℕ

abbrev pub new_desc : ℕ → ℕ → ℕ → XdpDesc
new_desc a l o = record { addr = a; len = l; options = o }

pub record Ring (T : Type 0) : Type 0 where
  pub mmap : RingMmap T
  pub len : ℕ
  pub mod_mask : ℕ

-- `Default` of both structs: null pointers, no entries.
abbrev pub default_mmap : (T : Type 0) → RingMmap T
default_mmap T = record {
  mmap = record { ptr = 0; size = 0 };
  producer = 0;
  consumer = 0;
  desc = [];
  flags = 0;
}

abbrev pub default : (T : Type 0) → Ring T
default T = record { mmap = default_mmap T; len = 0; mod_mask = 0 }

module _ {T : Type 0} where
  -- A load or store of an index goes through a pointer that is null in a default ring.
  abbrev pub is_null : Ring T → Bool
  is_null r = r.mmap.mmap.ptr == 0

  -- The memory after a store.
  abbrev pub with_producer : Ring T → ℕ → Ring T
  with_producer r value = record r { mmap = record (r.mmap) { producer = value } }

  abbrev pub with_consumer : Ring T → ℕ → Ring T
  with_consumer r value = record r { mmap = record (r.mmap) { consumer = value } }

  abbrev pub with_desc : Ring T → ℕ → T → Ring T
  with_desc r index v = record r { mmap = record (r.mmap) { desc = set r.mmap.desc index v } }

  abbrev pub with_area : Ring T → List T → Ring T
  with_area r area = record r { mmap = record (r.mmap) { desc = area } }

  unfoldable pub frame_size : Ring T → ℕ
  frame_size r = Const.frame_size

  unfoldable pub consumer : Ring T → Run ℕ
  consumer r = if is_null r then fault else done r.mmap.consumer

  unfoldable pub producer : Ring T → Run ℕ
  producer r = if is_null r then fault else done r.mmap.producer

  unfoldable pub update_producer : Ring T → ℕ → Run (Ring T)
  update_producer r value = if is_null r then fault else done (with_producer r value)

  unfoldable pub update_consumer : Ring T → ℕ → Run (Ring T)
  update_consumer r value = if is_null r then fault else done (with_consumer r value)

  unfoldable pub flags : Ring T → Run ℕ
  flags r = if is_null r then fault else done r.mmap.flags

  unfoldable pub increment : Build → Ring T → ℕ → Run ℕ
  increment b r value = do
    next ← add_word b u32_mod value 1
    last ← sub_word b u64_mod r.len 1
    done (bit_and next (as_u32 last))

  -- The reference that the method returns is modelled by the change `f` made through it.
  unfoldable pub mut_desc_at : Build → Ring T → ℕ → (T → T) → Run (Ring T)
  mut_desc_at b r index f = do
    debug_assert b (ltb index r.len)
    v ← deref (get_elem? r.mmap.desc index)
    done (with_desc r index (f v))

  unfoldable pub desc_at : Build → Ring T → ℕ → Run T
  desc_at b r index = do debug_assert b (ltb index r.len); deref (get_elem? r.mmap.desc index)

  -- The loop of the two `fill` methods, with `n` rounds left: `entry` makes the descriptor of a
  -- frame from its address.
  unfoldable pub fill_from : Build → (ℕ → T) → ℕ → ℕ → ℕ → Ring T → Run (Ring T)
  fill_from b entry start_frame zero i r = done r
  fill_from b entry start_frame (suc n) i r = do
    frame ← add_word b u32_mod i start_frame
    addr ← mul_word b u64_mod frame Const.frame_size
    r' ← mut_desc_at b r i (λ _. entry addr)
    fill_from b entry start_frame n (i + 1) r'
