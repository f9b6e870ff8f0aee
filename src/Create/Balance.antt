-- ===== src/Create/Balance.antt =====
-- What the process holds, read off the calls it made; and computations that keep account of it.
use xdp_rs.Prelude.{
  ℕ, suc, ◌-◌, ◌≤◌, ◌≡◌, ◌≢◌, refl, arith, List, [], ◌∷◌, Bool, true, false, ◌&&◌, ◌||◌, Run, done,
  panic, fault, hang, Result, ok, IoError, length, ◌==◌, if◌then◌else◌,
}
use xdp_rs.Libc.{Libc}
use xdp_rs.Mmap.Owned.{drop_mmap, drop, release}
use xdp_rs.Ring.{XdpDesc}
use xdp_rs.System.{
  Call, socket, map_umem, register_umem, set_ring_size, get_offsets, map_ring, bind, unmap, close,
  RingOffset, Area, Kernel, Resource, area, descriptor, Process,
}

abbrev pub same : Resource → Resource → Bool
same (area p n) (area p' n') = p == p' && n == n'
same (area p n) (descriptor fd) = false
same (descriptor fd) (area p n) = false
same (descriptor fd) (descriptor fd') = fd == fd'

-- What is left when one resource is given back.
abbrev pub without : Resource → List Resource → List Resource
without r [] = []
without r (x ∷ rest) = if same r x then rest else x ∷ without r rest

-- What is held after the calls of a log, newest first.
abbrev pub held : List Call → List Resource
held [] = []
held (socket n ∷ log) = descriptor n ∷ held log
held (map_umem p n ∷ log) = area p n ∷ held log
held (map_ring p fd n o ∷ log) = area p n ∷ held log
held (unmap p n ∷ log) = without (area p n) (held log)
held (close n ∷ log) = without (descriptor n) (held log)
held (register_umem n p s f ∷ log) = held log
held (set_ring_size fd i n ∷ log) = held log
held (get_offsets n ∷ log) = held log
held (bind n f x q ∷ log) = held log

-- A successful mapping is neither null nor `MAP_FAILED`.
pub record IsSane (c : Libc) (k : Kernel) : Type 0 where
  pub memory :
      (log : List Call) (n : ℕ) (huge : Bool) (p : ℕ)
      → k.map_memory log n huge ≡ ok p
      → (p ≢ 0) × (p ≢ c.map_failed)
  pub descs :
      (log : List Call) (fd n t : ℕ) (o : RingOffset) (a : Area XdpDesc)
      → k.map_descs log fd n t o ≡ ok a
      → (a.ptr ≢ 0) × (a.ptr ≢ c.map_failed)
  pub addrs :
      (log : List Call) (fd n t : ℕ) (o : RingOffset) (a : Area ℕ)
      → k.map_addrs log fd n t o ≡ ok a
      → (a.ptr ≢ 0) × (a.ptr ≢ c.map_failed)

module _ (c : Libc) where
  -- What a drop gives back to the system.
  abbrev pub IsReal : Resource → Type 0
  IsReal (area p n) = (p ≢ 0) × (p ≢ c.map_failed)
  IsReal (descriptor fd) = Unit {0}

  -- `Above old live`: `live` is `old` with what was acquired since on top.
  pub data Above (old : List Resource) : List Resource → Type 0 where
    base : Above old old
    more : {r : Resource} {live : List Resource} → IsReal r → Above old live → Above old (r ∷ live)

  pub Above-trans : {a b d : List Resource} → Above a b → Above b d → Above a d
  Above-trans x base = x
  Above-trans x (more real y) = more real (Above-trans x y)

  length-Above : {a b : List Resource} → Above a b → length a ≤ length b
  length-Above base = omega arith
  length-Above (more real y) = omega (arith, length-Above y)

  -- The account is right, and `old` is still held.
  pub record Kept (old : List Resource) (p : Process) : Type 0 where
    pub account : held p.log ≡ p.live
    pub above : Above old p.live

  -- The drop of the resource on top is seen in the log.
  drop_lem :
      (r : Resource) (live : List Resource) (log : List Call)
      → IsReal r
      → held log ≡ r ∷ live
      → held (drop c r log) ≡ live
  unfolding drop drop_mmap
  drop_lem (area p n) live log (some_ptr, mapped) h =
      let here : same (area p n) (area p n) ≡ true = ground arith in
      let real : (p == c.map_failed || p == 0) ≡ false = ground (arith, some_ptr, mapped) in
      rw (real, h, here)
  drop_lem (descriptor fd) live log real h =
      let here : same (descriptor fd) (descriptor fd) ≡ true = ground arith in rw (h, here)

  pub released :
      {old live : List Resource} (log : List Call)
      → Above old live
      → held log ≡ live
      → (held (release c (length live - length old) live log).log ≡ old)
        × ((release c (length live - length old) live log).live ≡ old)
  unfolding release
  released {old = old} log base h =
      let none_since : length old - length old ≡ 0 = omega arith in rw none_since (h, refl)
  released {old = old} log (more {r = r} {live = live} real y) h =
      let one_more : length (r ∷ live) - length old ≡ suc (length live - length old) =
        omega (arith, length-Above y) in
      rw one_more (released (drop c r log) y (drop_lem r live log real h))

-- What holds of the process when a computation returns, by its result.
abbrev pub Returns :
    {A : Type 0} → (Result A IoError → Process → Type 0) → Run (Result A IoError × Process) → Type 0
Returns Q (done (r, p)) = Q r p
Returns Q panic = Unit {0}
Returns Q fault = Unit {0}
Returns Q hang = Unit {0}
