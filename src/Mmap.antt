-- ===== src/Mmap.antt =====
-- xdp-socket/src/mmap.rs
pub mod Aligned
pub mod Owned
pub mod Meminfo
pub mod Printed
mod Tests
use xdp_rs.Prelude.{
  ℕ, ◌+◌, ◌-◌, ◌*◌, bit_and, Bool, true, false, Option, none, some, Build, Run, done, ◌>>=◌, Result,
  ok, err, IoError, add_word, sub_word, ltb, ◌==◌, ◌&&◌, if◌then◌else◌,
}
use xdp_rs.Prelude.Words.{u64_mod}

-- `OwnedMmap(ptr, size)`; the null pointer is 0.
pub record OwnedMmap : Type 0 where
  pub ptr : ℕ
  pub size : ℕ

pub record HugePageInfo : Type 0 where
  pub size_kb : Option ℕ
  pub total : Option ℕ
  pub free : Option ℕ

-- `if let (Some(x), Some(2048)) = (info.free, info.size_kb) { x > 0 } else { false }`
abbrev pub has_free : Option ℕ → Option ℕ → Bool
has_free none size_kb = false
has_free (some x) none = false
has_free (some x) (some s) = s == 2048 && ltb 0 x

abbrev pub from_info : Result HugePageInfo IoError → Result Bool IoError
from_info (err e) = err e
from_info (ok info) = ok (has_free info.free info.size_kb)

-- Whether huge pages are used; `info` is what `get_hugepage_info` comes to.
abbrev pub use_huge : Option Bool → Result HugePageInfo IoError → Result Bool IoError
use_huge (some yes_or_no) info = ok yes_or_no
use_huge none info = from_info info

-- `!x` on 64 bits
abbrev pub bit_not : ℕ → ℕ
bit_not x = u64_mod - 1 - x

abbrev pub page_size : ℕ → Bool → ℕ
page_size standard huge_tlb = if huge_tlb then 2 * 1024 * 1024 else standard

-- `(size + page_size - 1) & !(page_size - 1)`
unfoldable pub aligned : Build → ℕ → ℕ → Run ℕ
aligned b size page = do
  sum ← add_word b u64_mod size page
  last ← sub_word b u64_mod sum 1
  low ← sub_word b u64_mod page 1
  done (bit_and last (bit_not low))

-- `standard` is the system's page size, and `map n huge` what `libc::mmap` comes to for `n` bytes.
module _ (standard : ℕ) (map : ℕ → Bool → Result ℕ IoError) where
  abbrev pub owned : ℕ → Result ℕ IoError → Result OwnedMmap IoError
  owned n (err e) = err e
  owned n (ok p) = ok (record { ptr = p; size = n })

  abbrev pub mmap_with : Build → ℕ → Result Bool IoError → Run (Result OwnedMmap IoError)
  mmap_with b size (err e) = done (err e)
  mmap_with b size (ok huge_tlb) = do
    n ← aligned b size (page_size standard huge_tlb)
    done (owned n (map n huge_tlb))

  -- `OwnedMmap::mmap`
  unfoldable pub mmap :
      Build → ℕ → Option Bool → Result HugePageInfo IoError → Run (Result OwnedMmap IoError)
  unfolding aligned
  mmap b size huge_page info = mmap_with b size (use_huge huge_page info)
