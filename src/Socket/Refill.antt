-- ===== src/Socket/Refill.antt =====
-- The loop of `Commit_<_RX>::commit_`: which frame goes back to which slot of the Fill ring.
use native.Mathlib.Nat.{mod-lt, mod_self, mod-add-mod, mod-eq_of_lt, mod-eq-sub-mod, add-zero}
use xdp_rs.Prelude.{
  ℕ, zero, suc, ◌+◌, ◌-◌, ◌%◌, ◌^◌, ◌≤◌, ◌<◌, ap, ◌≡◌, ◌≢◌, refl, sym, ◌∙◌, arith, true, false,
  Build, done, List, length, set, length-set, get_or, get_or-set_self, get_or-set_ne, Bool-cases,
  inl, inr, ltb, leb, ◌==◌, if◌then◌else◌,
}
use xdp_rs.Prelude.Words.{u32_mod, wrapping_add, wrap-mod, pow_pos}
use xdp_rs.Ring.{Ring, XdpDesc, new_desc, with_area, with_desc}
use xdp_rs.Ring.Access.{IsRing, slot, slot-lt, desc_at-IsRing, mut_desc_at-IsRing, with_desc-IsRing}
use xdp_rs.Ring.Bytes.{desc_in}
use xdp_rs.Socket.Commit.{return_frames}

-- The frame address in the RX ring at an index.
abbrev pub received : ℕ → Ring XdpDesc → ℕ → ℕ
received k x_ring i = (desc_in x_ring (i % 2 ^ k)).addr

-- The Fill ring's entries after `n` rounds, from the indices `c` and `p`.
pub returned : ℕ → Ring XdpDesc → ℕ → ℕ → ℕ → List ℕ → List ℕ
returned k x_ring zero c p area = area
returned k x_ring (suc n) c p area =
    returned k x_ring n (c + 1) (p + 1) (set area (p % 2 ^ k) (received k x_ring c))

-- Only the slots of the indices count.
returned-mod :
    (k : ℕ) (x_ring : Ring XdpDesc) (n c c' p p' : ℕ) (area : List ℕ)
    → c % 2 ^ k ≡ c' % 2 ^ k
    → p % 2 ^ k ≡ p' % 2 ^ k
    → returned k x_ring n c p area ≡ returned k x_ring n c' p' area
unfolding returned
returned-mod k x_ring zero c c' p p' area e f = refl
returned-mod k x_ring (suc n) c c' p p' area e f =
    ap (λ (t : ℕ). tail (set area (p % 2 ^ k) (desc_in x_ring t).addr)) e
    ∙ (ap (λ (t : ℕ). tail (set area t (received k x_ring c'))) f
        ∙ returned-mod k x_ring n (c + 1) (c' + 1) (p + 1) (p' + 1)
            (set area (p' % 2 ^ k) (received k x_ring c')) (next c c' e) (next p p' f))
  where
    tail : List ℕ → List ℕ
    tail = returned k x_ring n (c + 1) (p + 1)

    next : (a a' : ℕ) → a % 2 ^ k ≡ a' % 2 ^ k → (a + 1) % 2 ^ k ≡ (a' + 1) % 2 ^ k
    next a a' h = rw (← mod-add-mod a (2 ^ k) 1, h) (mod-add-mod a' (2 ^ k) 1)

module _ {k : ℕ} {x_ring : Ring XdpDesc} (w : IsRing k x_ring) (b : Build) where
  pub return_frames_lem :
      (n c p : ℕ) (f_ring : Ring ℕ)
      → IsRing k f_ring
      → c < u32_mod
      → p < u32_mod
      → return_frames b x_ring n (record { f_ring = f_ring; consumer = c; producer = p })
        ≡ done (record {
          f_ring = with_area f_ring (returned k x_ring n c p f_ring.mmap.desc);
          consumer = wrapping_add c n;
          producer = wrapping_add p n;
        })
  unfolding return_frames returned
  return_frames_lem zero c p f_ring u hc hp =
      let ec : (c + 0) % u32_mod ≡ c = omega arith in
      let ep : (p + 0) % u32_mod ≡ p = omega arith in rw (ec, ep)
  return_frames_lem (suc n) c p f_ring u hc hp =
      let v = received k x_ring c in
      let ec : ((c + 1) % u32_mod + n) % u32_mod ≡ (c + suc n) % u32_mod = omega arith in
      let ep : ((p + 1) % u32_mod + n) % u32_mod ≡ (p + suc n) % u32_mod = omega arith in
      rw (
        slot w c,
        desc_at-IsRing w b (c % 2 ^ k) (new_desc 0 0 0) (slot-lt w c),
        slot w p,
        mut_desc_at-IsRing u b (p % 2 ^ k) (λ _. v) 0 (slot-lt w p),
        return_frames_lem n (wrapping_add c 1) (wrapping_add p 1) (with_desc f_ring (p % 2 ^ k) v)
            (with_desc-IsRing u _ _) (omega arith) (omega arith),
        ec,
        ep,
        returned-mod k x_ring n (wrapping_add c 1) (c + 1) (wrapping_add p 1) (p + 1)
            (set f_ring.mmap.desc (p % 2 ^ k) v) (wrap-mod k (c + 1) (omega (arith, w.small)))
            (wrap-mod k (p + 1) (omega (arith, w.small))),
      )

pub length-returned :
    (k : ℕ) (x_ring : Ring XdpDesc) (n c p : ℕ) (area : List ℕ)
    → length (returned k x_ring n c p area) ≡ length area
unfolding returned
length-returned k x_ring zero c p area = refl
length-returned k x_ring (suc n) c p area =
    length-returned k x_ring n (c + 1) (p + 1) _ ∙ length-set area (p % 2 ^ k) _

-- In the ring of `2 ^ k` slots, how far slot `i` lies after the slot of index `p`.
abbrev pub offset : ℕ → ℕ → ℕ → ℕ
offset k p i = (i + (2 ^ k - p % 2 ^ k)) % 2 ^ k

offset_lem :
    (k p i : ℕ)
    → i < 2 ^ k
    → offset k p i ≡ (if leb (p % 2 ^ k) i then i - p % 2 ^ k else i + (2 ^ k - p % 2 ^ k))
offset_lem k p i h = elim (Bool-cases (leb (p % 2 ^ k) i)) [
  | inl past ↦
      let low : p % 2 ^ k ≤ i = ground arith in
      rw (past, mod-eq-sub-mod {n = i + (2 ^ k - p % 2 ^ k)} {m = 2 ^ k} (omega (arith, pow_pos k)))
        (mod-eq_of_lt (omega (arith, pow_pos k)) ∙ omega (arith, pow_pos k, mod-lt p (pow_pos k)))
  | inr before ↦ rw before (mod-eq_of_lt (ground (arith, mod-lt p (pow_pos k))))
]

next_mod : (k p : ℕ) → (p + 1) % 2 ^ k ≡ (if p % 2 ^ k + 1 == 2 ^ k then 0 else p % 2 ^ k + 1)
next_mod k p = elim (Bool-cases (p % 2 ^ k + 1 == 2 ^ k)) [
  | inl last ↦
      let e : p % 2 ^ k + 1 ≡ 2 ^ k = ground arith in
      rw (last, ← mod-add-mod p (2 ^ k) 1, e) (mod_self (2 ^ k))
  | inr inner ↦
      rw (inner, ← mod-add-mod p (2 ^ k) 1) (mod-eq_of_lt (ground (arith, mod-lt p (pow_pos k))))
]

-- The slot written first comes last for the later rounds; the others move up by one.
offset_next :
    (k p i : ℕ)
    → i < 2 ^ k
    → (i ≡ p % 2 ^ k → (offset k p i ≡ 0) × (offset k (p + 1) i + 1 ≡ 2 ^ k))
      × (i ≢ p % 2 ^ k → offset k p i ≡ offset k (p + 1) i + 1)
offset_next k p i h = (
  (λ e.
      rw (offset_lem k p i h, offset_lem k (p + 1) i h, next_mod k p)
        (ground (arith, mod-lt p (pow_pos k)))),
  (λ e.
      rw (offset_lem k p i h, offset_lem k (p + 1) i h, next_mod k p)
        (ground (arith, mod-lt p (pow_pos k)))),
)

-- The frames that `n` rounds return, slot by slot.
pub get_or-returned :
    (k : ℕ) (x_ring : Ring XdpDesc) (n c p : ℕ) (area : List ℕ) (i : ℕ)
    → length area ≡ 2 ^ k
    → n ≤ 2 ^ k
    → i < 2 ^ k
    → get_or (returned k x_ring n c p area) i 0
      ≡ (if ltb (offset k p i) n then received k x_ring (c + offset k p i) else get_or area i 0)
unfolding returned
get_or-returned k x_ring zero c p area i len hn hi = ground arith
get_or-returned k x_ring (suc n) c p area i len hn hi =
    let q = p % 2 ^ k in
    let v = received k x_ring c in
    let rest =
      get_or-returned k x_ring n (c + 1) (p + 1) (set area q v) i (length-set area q v ∙ len)
        (omega arith) hi in
    elim (Bool-cases (i == q)) [
      | inl here ↦
          let e : i ≡ q = ground arith in
          let o = (offset_next k p i hi).0 e in
          let late : ltb (offset k (p + 1) i) n ≡ false = ground arith in
          let now : ltb 0 (suc n) ≡ true = ground arith in
          rw (rest, late, o.0, now, add-zero, e) (get_or-set_self area q v 0 (omega arith))
      | inr away ↦
          let e : i ≢ q = ground arith in
          let o = (offset_next k p i hi).1 e in
          let same : get_or (set area q v) i 0 ≡ get_or area i 0 =
            get_or-set_ne area q i v 0 (λ f. e (sym f)) in
          let after : c + 1 + offset k (p + 1) i ≡ c + (offset k (p + 1) i + 1) = omega arith in
          rw (rest, o, same, after) (ground arith)
    ]
