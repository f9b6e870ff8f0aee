-- ===== src/Ring/Fill.antt =====
-- What the two `fill` methods leave in a ring.
use native.Mathlib.Nat.{mod-eq_of_lt}
use xdp_rs.Prelude.{
  ℕ, zero, suc, ◌+◌, ◌*◌, ◌^◌, ◌≤◌, ◌<◌, ◌≡◌, refl, arith, List, Build, done, length, get_or,
  get_elem?, get_elem?_lem, some, none, Bool-cases, inl, inr, true, get_or-set_self, get_or-set_ne,
  ltb, leb, ◌&&◌, if◌then◌else◌,
}
use xdp_rs.Prelude.Words.{u32_mod, as_u32, u64_mod, pow-lt_u32, add_word_fits, mul_word_fits}
use xdp_rs.Ring.{Ring, XdpDesc, new_desc, with_area, with_desc, fill_from}
use xdp_rs.Ring.Const
use xdp_rs.Ring.Access.{IsRing, mut_desc_at-IsRing, with_desc-IsRing}
use xdp_rs.Ring.Addrs
use xdp_rs.Ring.Descs

module _ {T : Type 0} (k : ℕ) (b : Build) (entry : ℕ → T) (start : ℕ) (d : T) where
  -- `area` holds the descriptors of the frames from `start` in its slots `i` to `i + n`, and
  -- agrees with `old` elsewhere.
  abbrev IsFilled : ℕ → ℕ → List T → List T → Type 0
  IsFilled i n old area =
      (j : ℕ)
      → j < 2 ^ k
      → get_or area j d ≡ (
          if leb i j && ltb j (i + n)
          then entry ((j + start) * Const.frame_size)
          else get_or old j d)

  fill_from_lem :
      (n i : ℕ) (r : Ring T)
      → IsRing k r
      → i + n ≤ 2 ^ k
      → start + 2 ^ k ≤ u32_mod
      → (area : List T) × (fill_from b entry start n i r ≡ done (with_area r area))
        × (length area ≡ 2 ^ k)
        × IsFilled i n r.mmap.desc area
  unfolding fill_from
  fill_from_lem zero i r w h fits = (r.mmap.desc, refl, w.area, λ j hj. ground arith)
  fill_from_lem (suc n) i r w h fits =
      let v = entry ((i + start) * Const.frame_size) in
      let rest =
        fill_from_lem n (i + 1) (with_desc r i v) (with_desc-IsRing w i v) (omega arith) fits in
      (
        rest.0,
        rw
            (
              add_word_fits b u32_mod i start (omega arith),
              mul_word_fits b u64_mod (i + start) Const.frame_size (omega arith),
              mut_desc_at-IsRing w b i (λ _. v) d (omega arith),
            )
            (rest.1),
        rest.2,
        λ j hj. ground (
          arith,
          rest.3 j hj,
          get_or-set_self r.mmap.desc i v d,
          get_or-set_ne r.mmap.desc i j v d,
          w.area,
        ),
      )

  -- Every read of a filled area.
  entries_filled :
      (old area : List T)
      → length area ≡ 2 ^ k
      → IsFilled 0 (2 ^ k) old area
      → (j : ℕ)
      → get_elem? area j
        ≡ (if ltb j (2 ^ k) then some (entry ((j + start) * Const.frame_size)) else none)
  entries_filled old area len filled j = elim (Bool-cases (ltb j (2 ^ k))) [
    | inl inside ↦
        let at : (leb 0 j && ltb j (0 + 2 ^ k)) ≡ true = ground arith in
        rw (get_elem?_lem area j d, len, inside, filled j (ground arith), at)
    | inr outside ↦ rw (get_elem?_lem area j d, len, outside)
  ]

full : (k : ℕ) → k ≤ 31 → as_u32 (2 ^ k) ≡ 2 ^ k
full k h = mod-eq_of_lt (pow-lt_u32 k h)

-- `fill` on a mapped ring of addresses neither panics nor faults in any build, and writes to every
-- slot `j` the address of frame `j + start_frame`; only the descriptor area changes. The frame
-- numbers must fit in 32 bits.
pub fill_addrs :
    (k : ℕ) (b : Build) (start : ℕ) (r : Ring ℕ)
    → IsRing k r
    → start + 2 ^ k ≤ u32_mod
    → (area : List ℕ) × (Addrs.fill b r start ≡ done (with_area r area))
      × (length area ≡ 2 ^ k)
      × ((j : ℕ)
          → get_elem? area j
            ≡ (if ltb j (2 ^ k) then some ((j + start) * Const.frame_size) else none))
unfolding Addrs.fill
fill_addrs k b start r w fits =
    let f = fill_from_lem k b (λ addr. addr) start 0 (2 ^ k) 0 r w (omega arith) fits in
    let e : as_u32 r.len ≡ 2 ^ k = rw w.len (full k w.small) in
    (f.0, rw e (f.1), f.2, entries_filled k b (λ addr. addr) start 0 r.mmap.desc (f.0) (f.2) (f.3))

-- `fill` on a mapped ring of packet descriptors writes to every slot `j` an empty descriptor of
-- frame `j + start_frame`, in every build; only the descriptor area changes. The frame numbers must
-- fit in 32 bits.
pub fill_descs :
    (k : ℕ) (b : Build) (start : ℕ) (r : Ring XdpDesc)
    → IsRing k r
    → start + 2 ^ k ≤ u32_mod
    → (area : List XdpDesc) × (Descs.fill b r start ≡ done (with_area r area))
      × (length area ≡ 2 ^ k)
      × ((j : ℕ)
          → get_elem? area j ≡ (
              if ltb j (2 ^ k) then some (new_desc ((j + start) * Const.frame_size) 0 0) else none))
unfolding Descs.fill
fill_descs k b start r w fits =
    let f =
      fill_from_lem k b (λ addr. new_desc addr 0 0) start (new_desc 0 0 0) (2 ^ k) 0 r w
        (omega arith) fits in
    let e : as_u32 r.len ≡ 2 ^ k = rw w.len (full k w.small) in
    (
      f.0,
      rw e (f.1),
      f.2,
      entries_filled k b (λ addr. new_desc addr 0 0) start (new_desc 0 0 0) r.mmap.desc (f.0) (f.2)
          (f.3),
    )
