-- ===== src/Mmap/Tests.antt =====
-- The UMEM on a system with pages of 4096 bytes and no huge pages.
use xdp_rs.Prelude.{
  ℕ, ◌≡◌, ◌+◌, ◌%◌, ◌≤◌, ◌<◌, refl, arith, true, false, Bool, some, none, Build, done, Result, ok,
  IoError,
}
use xdp_rs.Mmap.{HugePageInfo, owned, mmap}
use xdp_rs.Prelude.{[], ◌∷◌, err, other}
use xdp_rs.Mmap.Meminfo.{
  hugepages_total, hugepages_free, hugepagesize, get_hugepage_info, read_lines, read_line,
}
use xdp_rs.Mmap.Printed.{entry, kb, get_hugepage_info-entry}
use xdp_rs.Mmap.Aligned.{mmap_lem}

abbrev build : Build
build = record { debug = true; checks = true }

abbrev info : HugePageInfo
info = record { size_kb = some 2048; total = some 0; free = some 0 }

abbrev map : ℕ → Bool → Result ℕ IoError
map n huge = ok 65536

mmap_lem_example :
    (n : ℕ) × (mmap 4096 map build 8388609 none (ok info) ≡ done (owned 4096 map n (map n false)))
    × (8388609 ≤ n)
    × (n < 8388609 + 4096)
    × (n % 4096 ≡ 0)
mmap_lem_example =
    mmap_lem 12 map build 8388609 none (ok info) false (omega arith) refl (omega arith)

get_hugepage_info-entry_example :
    get_hugepage_info (
      ok (
        ok (entry hugepages_total 7 (1 ∷ 6 ∷ []) [])
        ∷ ok (entry hugepages_free 8 (4 ∷ []) [])
        ∷ ok (entry hugepagesize 7 (2 ∷ 0 ∷ 4 ∷ 8 ∷ []) kb)
        ∷ []))
    ≡ ok (record { size_kb = some 2048; total = some 16; free = some 4 })
get_hugepage_info-entry_example =
    get_hugepage_info-entry 7 1 8 4 7 2 (6 ∷ []) [] (0 ∷ 4 ∷ 8 ∷ []) refl refl refl (omega arith)
      (omega arith) (omega arith)

-- A line that is not UTF-8 or cannot be read is an error.
unreadable :
    get_hugepage_info (ok (ok (entry hugepages_free 1 (4 ∷ []) []) ∷ err (other "read") ∷ []))
    ≡ err (other "read")
unfolding get_hugepage_info read_lines read_line
unreadable = refl
