-- ===== src/Mmap/Owned.antt =====
-- `Drop for OwnedMmap` of xdp-socket/src/mmap.rs, and how a scope that fails gives back what it
-- acquired. A result of `munmap` is only logged, so a drop never fails.
use xdp_rs.Prelude.{
  ℕ, zero, suc, ◌-◌, ◌||◌, List, [], ◌∷◌, Run, done, Result, ok, err, IoError, length, ◌==◌,
  if◌then◌else◌,
}
use xdp_rs.Libc.{Libc}
use xdp_rs.Mmap.{OwnedMmap}
use xdp_rs.System.{Call, unmap, close, Resource, area, descriptor, Process, Sys, after_run}

module _ (c : Libc) where
  -- `Drop for OwnedMmap`
  unfoldable pub drop_mmap : OwnedMmap → List Call → List Call
  drop_mmap m log = if m.ptr == c.map_failed || m.ptr == 0 then log else unmap m.ptr m.size ∷ log

  -- A file descriptor is closed by the drop of its `OwnedFd`.
  unfoldable pub drop : Resource → List Call → List Call
  unfolding drop_mmap
  drop (area ptr size) log = drop_mmap (record { ptr = ptr; size = size }) log
  drop (descriptor fd) log = close fd ∷ log

  -- The `n` resources acquired last are dropped, the newest first.
  unfoldable pub release : ℕ → List Resource → List Call → Process
  release zero live log = record { log = log; live = live }
  release (suc n) [] log = record { log = log; live = [] }
  release (suc n) (r ∷ live) log = release n live (drop r log)

  -- The end of a scope that was entered with `held` resources: an error drops what was acquired since;
  -- a success hands it on.
  abbrev pub leave :
      {A : Type 0} → ℕ → Result A IoError × Process → Run (Result A IoError × Process)
  leave held (ok a, p) = done (ok a, p)
  leave held (err e, p) = done (err e, release (length p.live - held) p.live p.log)

  abbrev pub scoped : {A : Type 0} → Sys A → Sys A
  scoped m p = after_run (leave (length p.live)) (m p)
