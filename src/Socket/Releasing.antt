-- ===== src/Socket/Releasing.antt =====
-- `commit_` of an RX socket: the frames that go back to the kernel.
use native.Mathlib.Nat.{mod-eq_of_lt}
use xdp_rs.Prelude.{
  ℕ, refl, ◌+◌, ◌-◌, ◌^◌, ◌≤◌, ◌≡◌, true, false, arith, ◌∙◌, Build, done, ok, err, some, none, ltb,
  if◌then◌else◌, Bool-cases, inl, inr, get_or, get_elem?, get_elem?_lem,
}
use xdp_rs.Prelude.Words.{u32_mod, as_u32, wrapping_add, sub_word_fits, pow-lt_u32}
use xdp_rs.Ring.{with_area, with_producer, with_consumer}
use xdp_rs.Ring.Access.{
  IsRing, update_producer-IsRing, update_consumer-IsRing, with_producer-IsRing,
  with_consumer-IsRing,
}
use xdp_rs.Socket.{RxSocket, not_available}
use xdp_rs.Socket.Commit.{rx_commit_}
use xdp_rs.Socket.Refill.{
  returned, received, offset, return_frames_lem, get_or-returned, length-returned,
}
use xdp_rs.Socket.Valid.{IsRx}

-- The socket after `n` frames went back to the Fill ring.
abbrev pub released : ℕ → ℕ → RxSocket → RxSocket
released k n s = record s {
  x_ring = with_consumer s.x_ring (wrapping_add s.consumer n);
  u_ring =
      with_producer
        (with_area s.u_ring (returned k s.x_ring n s.consumer s.producer s.u_ring.mmap.desc))
        (wrapping_add s.producer n);
  available = s.available - n;
  producer = wrapping_add s.producer n;
  consumer = wrapping_add s.consumer n;
}

module _ {k : ℕ} {s : RxSocket} (w : IsRx k s) (b : Build) where
  with_returned-IsRing :
      (n : ℕ)
      → IsRing k
          (with_area s.u_ring (returned k s.x_ring n s.consumer s.producer s.u_ring.mmap.desc))
  with_returned-IsRing n = record {
    small = w.u.small;
    ptr = w.u.ptr;
    len = w.u.len;
    mask = w.u.mask;
    area = length-returned k s.x_ring n s.consumer s.producer s.u_ring.mmap.desc ∙ w.u.area;
  }

  pub rx_commit_lem :
      (count : ℕ)
      → b.checks ≡ true
      → rx_commit_ b s count ≡ (
          if ltb s.available (as_u32 count)
          then done (err not_available, s)
          else done (ok tt, released k (as_u32 count) s))
  unfolding rx_commit_
  rx_commit_lem count checks = elim (Bool-cases (ltb s.available (as_u32 count))) [
    | inl short ↦ rw (checks, short)
    | inr enough ↦
        let n = as_u32 count in
        rw (
          return_frames_lem w.x b n s.consumer s.producer s.u_ring w.u w.c_word w.p_word,
          sub_word_fits b u32_mod s.available n (ground arith)
              (omega (arith, pow-lt_u32 k w.x.small)),
          update_consumer-IsRing w.x (wrapping_add s.consumer n),
          update_producer-IsRing (with_returned-IsRing n) (wrapping_add s.producer n),
          enough,
          checks,
        )
  ]

  released-IsRx : (n : ℕ) → n ≤ s.available → IsRx k (released k n s)
  released-IsRx n h = record {
    x = with_consumer-IsRing w.x _;
    u = with_producer-IsRing (with_returned-IsRing n) _;
    few = w.few;
    room = omega arith;
    p_word = omega arith;
    c_word = omega arith;
    umem = w.umem;
  }

  -- `commit_` on a valid RX socket of a count within the available packets succeeds, with the safety
  -- checks compiled in. The Fill ring's next `count` slots from the socket's producer index, going
  -- round at the end, then hold the frame addresses of the RX ring's next `count` slots from its
  -- consumer index, in order, and its other slots are as before; both indices move on by the count,
  -- modulo 2^32, in the socket and in the rings; so many packets fewer are available; and the socket
  -- stays valid.
  pub frames_given_back :
      (count : ℕ)
      → b.checks ≡ true
      → count ≤ s.available
      → (s' : RxSocket) × (rx_commit_ b s count ≡ done (ok tt, s'))
        × ((i : ℕ)
            → get_elem? s'.u_ring.mmap.desc i ≡ (
                if ltb i (2 ^ k)
                then some (
                    if ltb (offset k s.producer i) count
                    then received k s.x_ring (s.consumer + offset k s.producer i)
                    else get_or s.u_ring.mmap.desc i 0)
                else none))
        × (s'.u_ring.mmap.producer ≡ wrapping_add s.producer count)
        × (s'.producer ≡ wrapping_add s.producer count)
        × (s'.x_ring.mmap.consumer ≡ wrapping_add s.consumer count)
        × (s'.consumer ≡ wrapping_add s.consumer count)
        × (s'.available + count ≡ s.available)
        × IsRx k s'
  frames_given_back count checks h =
      (released k count s, ran, entries, refl, refl, refl, refl, omega arith, released-IsRx count h)
    where
      small : as_u32 count ≡ count
      small = mod-eq_of_lt (omega (arith, w.room, pow-lt_u32 k w.x.small))

      ran : rx_commit_ b s count ≡ done (ok tt, released k count s)
      ran =
          let enough : ltb s.available count ≡ false = ground arith in
          rw (rx_commit_lem count checks, small, enough)

      entries :
          (i : ℕ)
          → get_elem? (released k count s).u_ring.mmap.desc i ≡ (
              if ltb i (2 ^ k)
              then some (
                  if ltb (offset k s.producer i) count
                  then received k s.x_ring (s.consumer + offset k s.producer i)
                  else get_or s.u_ring.mmap.desc i 0)
              else none)
      entries i = elim (Bool-cases (ltb i (2 ^ k))) [
        | inl inside ↦ rw (
          get_elem?_lem (returned k s.x_ring count s.consumer s.producer s.u_ring.mmap.desc) i 0,
          length-returned,
          w.u.area,
          inside,
          get_or-returned k s.x_ring count s.consumer s.producer s.u_ring.mmap.desc i w.u.area
              (omega (arith, w.room)) (ground arith),
        )
        | inr outside ↦ rw (
          get_elem?_lem (returned k s.x_ring count s.consumer s.producer s.u_ring.mmap.desc) i 0,
          length-returned,
          w.u.area,
          outside,
        )
      ]
