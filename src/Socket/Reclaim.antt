-- ===== src/Socket/Reclaim.antt =====
-- The loop of `Seek_<_TX>::seek_`: what it takes from the Completion ring and where it puts it.
use native.Mathlib.Nat.{mod-add-mod, add-zero}
use xdp_rs.Prelude.{
  ℕ, zero, suc, ◌+◌, ◌-◌, ◌%◌, ◌^◌, ◌≤◌, ◌<◌, ◌≡◌, arith, min, Build, done, get_or, set-set,
  Bool-cases, inl, inr, true, false, Result, ok, err, if◌then◌else◌, ℕ-cases, leb, ◌==◌, sym, ap,
  ◌∙◌,
}
use xdp_rs.Prelude.Words.{u32_mod, wrapping_sub, pow-lt_u32, wrap-mod, add_word_fits}
use xdp_rs.Ring.{new_desc, with_desc, with_consumer}
use xdp_rs.Ring.Access.{
  slot, slot-lt, desc_at-IsRing, mut_desc_at-IsRing, producer-IsRing, update_consumer-IsRing,
  with_desc-IsRing, with_consumer-IsRing,
}
use xdp_rs.Socket.{TxSocket, RingError, ring_full}
use xdp_rs.Socket.Seek.{reclaim_one, reclaim, tx_seek_}
use xdp_rs.Socket.Valid.{IsTx}

-- The frame address in the Completion ring at an index.
abbrev pub completed : ℕ → TxSocket → ℕ → ℕ
completed k s i = get_or s.u_ring.mmap.desc (i % 2 ^ k) 0

-- The socket after `m` completions are taken: the last address taken stands in the slot of the TX
-- ring that the producer index names.
abbrev pub after : ℕ → ℕ → TxSocket → TxSocket
after k m s = record s {
  x_ring =
      with_desc s.x_ring (s.producer % 2 ^ k) (new_desc (completed k s (s.consumer + (m - 1))) 0 0);
  u_ring = with_consumer s.u_ring ((s.consumer + m) % u32_mod);
  available = s.available + m;
  consumer = (s.consumer + m) % u32_mod;
}

module _ {k : ℕ} (b : Build) where
  pub after-IsTx :
      (m : ℕ) {s : TxSocket} → IsTx k s → s.available + m ≤ 2 ^ k → IsTx k (after k m s)
  after-IsTx m {s} w h = record {
    x = with_desc-IsRing w.x _ _;
    u = with_consumer-IsRing w.u _;
    few = w.few;
    room = h;
    p_word = w.p_word;
    c_word = omega arith;
    umem = w.umem;
  }

  reclaim_one_lem :
      {s : TxSocket} → IsTx k s → s.available < 2 ^ k → reclaim_one b s ≡ done (after k 1 s)
  unfolding reclaim_one
  reclaim_one_lem {s} w h =
      rw
        (
          slot w.u s.consumer,
          desc_at-IsRing w.u b (s.consumer % 2 ^ k) 0 (slot-lt w.u s.consumer),
          update_consumer-IsRing w.u ((s.consumer + 1) % u32_mod),
          slot w.x s.producer,
          mut_desc_at-IsRing w.x b (s.producer % 2 ^ k)
              (λ _. new_desc (completed k s s.consumer) 0 0) (new_desc 0 0 0)
              (slot-lt w.x s.producer),
          add_word_fits b u32_mod s.available 1 (omega (arith, pow-lt_u32 k w.x.small)),
        )
        (rw add-zero)

  -- Counting on from a wrapped index comes to the same slot.
  step-slot : (c m : ℕ) → k ≤ 31 → ((c + 1) % u32_mod + m) % 2 ^ k ≡ (c + suc m) % 2 ^ k
  step-slot c m h =
      sym (mod-add-mod ((c + 1) % u32_mod) (2 ^ k) m)
      ∙ (rw (wrap-mod k (c + 1) (omega arith), mod-add-mod)
          (ap (λ (t : ℕ). t % 2 ^ k) (omega arith)))

  after-after :
      (m : ℕ) {s : TxSocket} → IsTx k s → 0 < m → after k m (after k 1 s) ≡ after k (suc m) s
  after-after m {s} w h =
      let c = s.consumer in
      let back : suc (m - 1) ≡ suc m - 1 = omega arith in
      let slots : ((c + 1) % u32_mod + (m - 1)) % 2 ^ k ≡ (c + (suc m - 1)) % 2 ^ k =
        step-slot c (m - 1) w.x.small ∙ ap (λ (t : ℕ). (c + t) % 2 ^ k) back in
      let cursor : ((c + 1) % u32_mod + m) % u32_mod ≡ (c + suc m) % u32_mod = omega arith in
      let room : s.available + 1 + m ≡ s.available + suc m = omega arith in
      rw (set-set, slots, cursor, room)

  reclaim_lem :
      (fuel count c_producer : ℕ) (s : TxSocket)
      → IsTx k s
      → s.available < count
      → s.available + suc fuel ≤ 2 ^ k
      → c_producer < u32_mod
      → wrapping_sub c_producer s.consumer ≡ suc fuel
      → reclaim b (suc fuel) count c_producer s
        ≡ done (after k (min (count - s.available) (suc fuel)) s)
  unfolding reclaim
  reclaim_lem zero count c_producer s w short fits word gap =
      let last : c_producer ≡ (s.consumer + 1) % u32_mod = omega (arith, w.c_word) in
      let once : min (count - s.available) 1 ≡ 1 = omega arith in
      rw (reclaim_one_lem w (omega arith), once, ← last) (ground arith)
  reclaim_lem (suc fuel) count c_producer s w short fits word gap =
      elim (Bool-cases (leb count (s.available + 1))) [
        | inl enough ↦
            let once : min (count - s.available) (suc (suc fuel)) ≡ 1 = ground arith in
            rw (reclaim_one_lem w (omega arith), once, enough)
        | inr more ↦
            let a = s.available in
            let m = min (count - (a + 1)) (suc fuel) in
            let short' : a + 1 < count = ground arith in
            let moved : (c_producer == (s.consumer + 1) % u32_mod) ≡ false =
              ground (arith, w.c_word) in
            let gap' : wrapping_sub c_producer ((s.consumer + 1) % u32_mod) ≡ suc fuel =
              omega (arith, w.c_word) in
            let one_more : min (count - a) (suc (suc fuel)) ≡ suc m = omega arith in
            rw (reclaim_one_lem w (omega arith), more, moved, one_more)
              (reclaim_lem fuel count c_producer (after k 1 s) (after-IsTx 1 w (omega arith)) short'
                  (omega arith) word gap'
                ∙ ap done (after-after m w (omega arith)))
      ]

-- The entries that the kernel has put on the Completion ring and the socket has not taken.
abbrev pub pending : TxSocket → ℕ
pending s = wrapping_sub s.u_ring.mmap.producer s.consumer

-- What `seek_` on a TX socket comes to, by cases.
abbrev pub tx_sought : ℕ → TxSocket → ℕ → Result ℕ RingError × TxSocket
tx_sought k s count =
    if leb count s.available
    then (ok count, s)
    else if pending s == 0
    then (err ring_full, s)
    else let m = min (count - s.available) (pending s) in (ok (s.available + m), after k m s)

-- On a valid TX socket, when the Completion ring's producer index is a 32-bit word and names no more
-- entries than there are slots that are not available, `seek_` returns in every build: with `count`
-- and nothing changed if so many slots are available; with `RingFull` and nothing changed if nothing
-- has been completed; and else with the new number of available slots, having taken as many
-- completions as are pending, at most those that were missing, all written to one slot.
pub tx_seek_lem :
    (k : ℕ) (b : Build) (s : TxSocket) (count : ℕ)
    → IsTx k s
    → s.u_ring.mmap.producer < u32_mod
    → s.available + pending s ≤ 2 ^ k
    → tx_seek_ b s count ≡ done (tx_sought k s count)
unfolding tx_seek_
tx_seek_lem k b s count w word fits = elim (Bool-cases (leb count s.available)) [
  | inl enough ↦ rw enough
  | inr short ↦
      rw (short, producer-IsRing w.u)
        (elim (ℕ-cases (pending s)) [
          | inl empty ↦
              let same : (s.u_ring.mmap.producer == s.consumer) ≡ true = ground (arith, w.c_word) in
              rw (same, empty)
          | inr (d, gap) ↦
              let differ : (s.u_ring.mmap.producer == s.consumer) ≡ false =
                ground (arith, w.c_word) in
              let some_left : (suc d == 0) ≡ false = ground arith in
              rw (
                differ,
                gap,
                some_left,
                reclaim_lem b d count s.u_ring.mmap.producer s w (ground arith) (omega arith) word
                    gap,
              )
        ])
]
