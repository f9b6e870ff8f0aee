-- ===== src/Ring/Tests.antt =====
-- Runs on rings of two slots.
use xdp_rs.Prelude.{refl, arith, true, [], ◌∷◌, Build}
use xdp_rs.Ring.{Ring, XdpDesc, new_desc}
use xdp_rs.Ring.Access.{IsRing}

abbrev build : Build
build = record { debug = true; checks = true }

abbrev ring : {T : Type 0} → T → T → Ring T
ring x y = record {
  mmap = record {
    mmap = record { ptr = 4096; size = 4096 };
    producer = 0;
    consumer = 0;
    desc = x ∷ y ∷ [];
    flags = 0;
  };
  len = 2;
  mod_mask = 1;
}

ring-IsRing : {T : Type 0} (x y : T) → IsRing 1 (ring x y)
ring-IsRing x y = record {
  small = omega arith;
  ptr = ground arith;
  len = refl;
  mask = refl;
  area = refl;
}

abbrev descs : Ring XdpDesc
descs = ring (new_desc 0 0 0) (new_desc 2048 0 0)
