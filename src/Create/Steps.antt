-- ===== src/Create/Steps.antt =====
-- What each part of `create_socket` comes to on a system that grants its calls.
use native.Mathlib.Nat.{mod-eq_of_lt, pow-le-pow_right}
use xdp_rs.Prelude.{
  ℕ, ◌+◌, ◌-◌, ◌*◌, ◌^◌, ◌≤◌, ◌<◌, ◌≡◌, ◌≢◌, refl, arith, min, ◌∷◌, Bool, true, false, Option,
  Build, done, Result, ok, IoError, length, debug_assert-true,
}
use xdp_rs.Prelude.Words.{u32_mod, u64_mod, as_u32, mul_word_fits, sub_word_fits}
use xdp_rs.Libc.{Libc}
use xdp_rs.Mmap.{OwnedMmap, HugePageInfo, use_huge, page_size, owned}
use xdp_rs.Mmap.Aligned.{mmap_lem}
use xdp_rs.Mmap
use xdp_rs.Ring.{Ring}
use xdp_rs.Ring.Const
use xdp_rs.Ring.Access.{IsRing}
use xdp_rs.Ring.Bytes.{umem_size}
use xdp_rs.Ring.Mapping.{Entry, RingType, as_offset, ring_offs, is_power_of_two, mmap_type}
use xdp_rs.System.{
  map_umem, register_umem, map_ring, Area, MmapOffsets, Kernel, area, Process, last_os_error,
}
use xdp_rs.Prelude.{some}
use xdp_rs.Ring.{XdpDesc}
use xdp_rs.Prelude.Words.{pow-lt_u32}
use xdp_rs.System.{socket, descriptor}
use xdp_rs.Socket.{Inner, new, tx}
use xdp_rs.Socket.Valid.{IsTx}
use xdp_rs.Create.{XdpConfig, huge_page_of, setup_umem}
use xdp_rs.Create.Honest.{Grants}

-- The ring that stands in a mapped area.
abbrev pub ring_of : {T : Type 0} → ℕ → ℕ → Area T → Ring T
ring_of n size a = record {
  mmap = record {
    mmap = record { ptr = a.ptr; size = size };
    producer = a.producer;
    consumer = a.consumer;
    desc = a.desc;
    flags = a.flags;
  };
  len = n;
  mod_mask = n - 1;
}

-- The process after a ring was mapped.
abbrev pub with_ring : {T : Type 0} → ℕ → ℕ → ℕ → Area T → Process → Process
with_ring fd size offset a p = record {
  log = map_ring a.ptr fd size offset ∷ p.log;
  live = area a.ptr size ∷ p.live;
}

-- The process after the socket was opened, and after the UMEM was made and registered.
abbrev pub after_socket : ℕ → Process → Process
after_socket fd p = record { log = socket fd ∷ p.log; live = descriptor fd ∷ p.live }

abbrev pub after_umem : ℕ → OwnedMmap → Process → Process
after_umem fd umem p = record {
  log = register_umem fd umem.ptr umem.size Const.frame_size ∷ map_umem umem.ptr umem.size ∷ p.log;
  live = area umem.ptr umem.size ∷ p.live;
}

-- Every slot of the TX ring of a new socket is available.
pub new-available :
    (m : ℕ) (inner : Inner) (x : Ring XdpDesc) (u : Ring ℕ)
    → IsTx m (new tx (some inner) x u)
    → (new tx (some inner) x u).available ≡ 2 ^ m
unfolding new
new-available m inner x u w = rw w.x.len (mod-eq_of_lt (pow-lt_u32 m w.x.small))

pub ring_of-IsRing :
    {T : Type 0} (m size : ℕ) (a : Area T)
    → m ≤ 31
    → a.ptr ≢ 0
    → length a.desc ≡ 2 ^ m
    → IsRing m (ring_of (2 ^ m) size a)
ring_of-IsRing m size a small ptr len = record {
  small = small;
  ptr = ptr;
  len = refl;
  mask = refl;
  area = len;
}

-- `OwnedMmap::mmap` with any page size that is a power of two.
umem_mapped :
    (page q : ℕ) (map : ℕ → Bool → Result ℕ IoError) (b : Build) (size : ℕ)
    (huge_page : Option Bool) (info : Result HugePageInfo IoError) (huge : Bool)
    → page ≡ 2 ^ q
    → q ≤ 30
    → use_huge huge_page info ≡ ok huge
    → size < 2 ^ 32
    → (n : ℕ) × (Mmap.mmap page map b size huge_page info ≡ done (owned page map n (map n huge)))
      × (size ≤ n)
umem_mapped page q map b size huge_page info huge e small settled fits =
    let r = mmap_lem q map b size huge_page info huge (omega arith) settled (at_page huge) in
    rw e (r.0, r.1, r.2)
  where
    at_page : (h : Bool) → size + page_size (2 ^ q) h < u64_mod
    at_page true = omega arith
    at_page false =
        let p : 2 ^ q ≤ 2 ^ 30 = pow-le-pow_right {n = 2} (omega arith) {i = q} {j = 30} small in
        omega arith

module _ (c : Libc) (k : Kernel) where
  pub mmap_type_lem :
      {T : Type 0} (e : Entry T) (t : RingType) (b : Build) (fd : ℕ) (o : MmapOffsets) (n : ℕ)
      (a : Area T) (p : Process)
      → is_power_of_two n ≡ true
      → 0 < n
      → n < u32_mod
      → (ring_offs t o).desc + n * e.size_of < u64_mod
      → e.map k p.log fd ((ring_offs t o).desc + n * e.size_of) (as_offset c t) (ring_offs t o)
        ≡ ok a
      → let size = (ring_offs t o).desc + n * e.size_of in
        mmap_type c k e t b fd o n p
        ≡ done (ok (ring_of n size a), with_ring fd size (as_offset c t) a p)
  unfolding mmap_type
  mmap_type_lem e t b fd o n a p power pos small fits mapped =
      let size = (ring_offs t o).desc + n * e.size_of in
      let whole : min size (u64_mod - 1) ≡ size = omega arith in
      let cut : as_u32 n ≡ n = mod-eq_of_lt small in
      rw
        (
          power,
          debug_assert-true b,
          mul_word_fits b u64_mod n e.size_of (omega arith),
          whole,
          mapped,
          cut,
          sub_word_fits b u32_mod n 1 (omega arith) small,
        )
        (ground arith)

  pub setup_umem_lem :
      (info : Result HugePageInfo IoError) (b : Build) (fd q : ℕ) (config : Option XdpConfig)
      (huge : Bool) (p : Process)
      → Grants c k
      → k.page_size ≡ 2 ^ q
      → q ≤ 30
      → use_huge (huge_page_of config) info ≡ ok huge
      → (umem : OwnedMmap) × (setup_umem c k info b fd config p
          ≡ done (ok umem, after_umem fd umem p))
        × (umem_size ≤ umem.size)
  unfolding setup_umem
  setup_umem_lem info b fd q config huge p grants page small settled =
      let map : ℕ → Bool → Result ℕ IoError = λ n h. last_os_error (k.map_memory p.log n h) in
      let m =
        umem_mapped k.page_size q map b (Const.frame_count * Const.frame_size) (huge_page_of config)
          info huge page small settled (omega arith) in
      let g = grants.given p.log (m.0) huge in
      let umem : OwnedMmap = record { ptr = g.0; size = m.0 } in
      (
        umem,
        rw (
          m.1,
          g.1,
          grants.registered (map_umem (g.0) (m.0) ∷ p.log) fd (g.0) (m.0) Const.frame_size,
        ),
        m.2,
      )
