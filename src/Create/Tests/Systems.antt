-- ===== src/Create/Tests/Systems.antt =====
-- Sockets made on a system that grants its calls, but maps no more of a Fill ring than it has.
use xdp_rs.Prelude.{
  ℕ, ◌+◌, ◌*◌, ◌≡◌, ◌≢◌, refl, sym, arith, List, [], Bool, true, false, ◌&&◌, some, Build, ok, err,
  ◌==◌, if◌then◌else◌, ltb, leb, replicate, length-replicate,
}
use xdp_rs.Libc.{Libc}
use xdp_rs.Mmap.{HugePageInfo}
use xdp_rs.Ring.{new_desc}
use xdp_rs.Ring.Mapping.{RingType, as_index, as_offset}
use xdp_rs.System.{Call, RingOffset, MmapOffsets, Area, Kernel, Process}
use xdp_rs.Create.Honest.{size_set, IsNumbered, Grants}
use xdp_rs.Create.Balance.{IsSane}
use xdp_rs.Create.Refused.{Refuses}
use xdp_rs.Prelude.{◌≢◌}

abbrev pub build : Build
build = record { debug = true; checks = true }

abbrev pub libc : Libc
libc = record {
  xdp_ring_need_wakeup = 1;
  ebusy = 16;
  enobufs = 105;
  eagain = 11;
  enetdown = 100;
  pollin = 1;
  pollout = 4;
  map_failed = 0xffffffffffffffff;
  xdp_tx_ring = 3;
  xdp_rx_ring = 2;
  xdp_umem_fill_ring = 5;
  xdp_umem_completion_ring = 6;
  xdp_pgoff_tx_ring = 0x80000000;
  xdp_pgoff_rx_ring = 0;
  xdp_umem_pgoff_fill_ring = 0x100000000;
  xdp_umem_pgoff_completion_ring = 0x180000000;
  xdp_zerocopy = 4;
  xdp_copy = 2;
  xdp_use_need_wakeup = 8;
}

abbrev pub info : HugePageInfo
info = record { size_kb = some 2048; total = some 0; free = some 0 }

abbrev pub offset : RingOffset
offset = record { producer = 0; consumer = 64; desc = 128; flags = 64 }

abbrev pub offsets : MmapOffsets
offsets = record { rx = offset; tx = offset; fr = offset; cr = offset }

-- The number of the ring that is mapped at an offset.
abbrev pub number : ℕ → ℕ
number t = if t == 0x80000000 then 3 else if t == 0 then 2 else if t == 0x100000000 then 5 else 6

abbrev pub too_much : ℕ → ℕ → ℕ → RingOffset → Bool
too_much t n size o = t == 0x100000000 && n == 1 && ltb 4096 size && leb (o.desc + 8) 4096

abbrev pub area_of : {T : Type 0} → T → ℕ → Area T
area_of a n = record { ptr = 4096; producer = 0; consumer = 0; desc = replicate n a; flags = 1 }

abbrev pub kernel : Kernel
kernel = record {
  page_size = 4096;
  open_socket = λ log. ok 3;
  map_memory = λ log n huge. ok 65536;
  register = λ log fd p n f. ok tt;
  set_size = λ log fd i n. ok tt;
  offsets = λ log fd. ok offsets;
  map_descs = λ log fd size t o. ok (area_of (new_desc 0 0 0) (size_set fd (number t) log));
  map_addrs = λ log fd size t o.
      if too_much t (size_set fd (number t) log) size o
      then err 22
      else ok (area_of 0 (size_set fd (number t) log));
  bind = λ log fd f x q. ok tt;
}

abbrev pub start : Process
start = record { log = []; live = [] }

pub numbered : IsNumbered libc
numbered = record {
  fill_completion = omega arith;
  fill_tx = omega arith;
  fill_rx = omega arith;
  completion_tx = omega arith;
  completion_rx = omega arith;
  tx_rx = omega arith;
}

pub given-area :
    {T : Type 0} (refused : Bool) (e : ℕ) (x a : Area T)
    → (if refused then err e else ok x) ≡ ok a
    → x.ptr ≡ 4096
    → (a.ptr ≢ 0) × (a.ptr ≢ libc.map_failed)
given-area true e x a h ptr = cc
given-area false e x a h ptr =
    let it : x ≡ a = cc in let there : a.ptr ≡ 4096 = rw (sym it) ptr in (omega arith, omega arith)

pub sane : IsSane libc kernel
sane = record {
  memory = λ log n huge p given. (let it : 65536 ≡ p = cc in (omega arith, omega arith));
  descs = λ log fd n t o a given. given-area false 22 _ a given refl;
  addrs = λ log fd n t o a given. given-area _ 22 _ a given refl;
}

pub number-as_offset : (t : RingType) → number (as_offset libc t) ≡ as_index libc t
number-as_offset RingType.tx = refl
number-as_offset RingType.rx = refl
number-as_offset RingType.fill = refl
number-as_offset RingType.completion = refl

pub few_enough : (t n : ℕ) (o : RingOffset) → too_much t n (o.desc + n * 8) o ≡ false
few_enough t n o = ground arith

pub set_size_at :
    (log : List Call) (fd n : ℕ) (t : RingType)
    → size_set fd (as_index libc t) log ≡ n
    → size_set fd (number (as_offset libc t)) log ≡ n
set_size_at log fd n t set = rw (number-as_offset t) set

pub grants : Grants libc kernel
grants = record {
  opened = λ log. (3, refl);
  given = λ log n huge. (65536, refl);
  registered = λ log fd p n f. refl;
  sized = λ log fd i n. refl;
  offs = λ log fd. (offsets, refl, omega arith, omega arith, omega arith, omega arith);
  descs = λ log fd n t o set.
      (let at = set_size_at log fd n t set in
        (area_of (new_desc 0 0 0) n, rw at refl, omega arith, length-replicate n _, refl, refl));
  addrs = λ log fd n t o set.
      (let at = set_size_at log fd n t set in
        (
          area_of 0 n,
          rw (at, few_enough (as_offset libc t) n o) refl,
          omega arith,
          length-replicate n 0,
          refl,
          refl,
        ));
  bound = λ log fd f x q. refl;
}

pub refuses : Refuses libc kernel 22
refuses = record {
  header = λ log fd o given. (let it : offsets ≡ o = cc in rw (sym it) (omega arith));
  one_page = λ log fd size o set room big.
      (let too : too_much 0x100000000 1 size o ≡ true = ground arith in rw (set, too) refl);
}
