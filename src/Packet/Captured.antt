-- ===== src/Packet/Captured.antt =====
-- What a sequence of writes leaves in the array of `HdrWrite`.
use xdp_rs.Prelude.{
  ℕ, zero, suc, ◌+◌, ◌-◌, ◌≤◌, ◌<◌, ◌≡◌, refl, arith, min, List, [], ◌∷◌, ◌++◌, Build, Run, done,
  ◌>>=◌, length, length-set, length-append, ltb, leb, ◌==◌, ◌&&◌, get_or, set, get_or-set_self,
  get_or-set_ne, get_or-append, if◌then◌else◌, Bool-cases, inl, inr, ◌∙◌, true, false,
}
use xdp_rs.Prelude.Words.{u64_mod, add_word_fits}
use xdp_rs.Packet.{HdrWrite, copy, write}

-- `write_all` of each chunk in turn.
unfoldable pub write_each : Build → HdrWrite → List (List ℕ) → Run HdrWrite
write_each b w [] = done w
write_each b w (buf ∷ bufs) = do r ← write b w buf; write_each b (r.1) bufs

abbrev pub concat : List (List ℕ) → List ℕ
concat [] = []
concat (x ∷ xs) = x ++ concat xs

length-copy : (p len : ℕ) (src dst : List ℕ) → length (copy p len src dst) ≡ length dst
unfolding copy
length-copy p zero src dst = refl
length-copy p (suc len) [] dst = refl
length-copy p (suc len) (x ∷ src) dst =
    length-copy (p + 1) len src (set dst p x) ∙ length-set dst p x

copy_lem :
    (p len : ℕ) (src dst : List ℕ) (i : ℕ)
    → p + len ≤ length dst
    → len ≤ length src
    → get_or (copy p len src dst) i 0
      ≡ (if leb p i && ltb i (p + len) then get_or src (i - p) 0 else get_or dst i 0)
unfolding copy
copy_lem p zero src dst i h l = ground arith
copy_lem p (suc len) [] dst i h l = absurd (omega arith)
copy_lem p (suc len) (x ∷ src) dst i h l =
    let rest =
      copy_lem (p + 1) len src (set dst p x) i (omega (arith, length-set dst p x)) (omega arith) in
    elim (Bool-cases (i == p)) [
      | inl here ↦
          let e : i ≡ p = ground arith in
          let early : (leb (p + 1) p && ltb p (p + 1 + len)) ≡ false = ground arith in
          let now : (leb p p && ltb p (p + suc len)) ≡ true = ground arith in
          let start : p - p ≡ 0 = omega arith in
          rw (rest, e, early, now, start) (get_or-set_self dst p x 0 (omega arith))
      | inr away ↦
          let same = get_or-set_ne dst p i x 0 (ground arith) in
          elim (Bool-cases (leb p i)) [
            | inl past ↦
                let next : leb (p + 1) i ≡ true = ground arith in
                let back : i - p ≡ suc (i - (p + 1)) = ground arith in
                let bound : p + 1 + len ≡ p + suc len = omega arith in
                rw (rest, past, next, back, same, bound)
            | inr before ↦
                let next : leb (p + 1) i ≡ false = ground arith in rw (rest, before, next, same)
          ]
    ]

-- The writer after it took `buf`.
captured : HdrWrite → List ℕ → HdrWrite
captured w buf = record {
  hdr = if ltb w.at 42 then copy w.at (min (length buf) (42 - w.at)) buf w.hdr else w.hdr;
  at = w.at + length buf;
}

at-captured : (w : HdrWrite) (buf : List ℕ) → (captured w buf).at ≡ w.at + length buf
unfolding captured
at-captured w buf = refl

length-captured :
    (w : HdrWrite) (buf : List ℕ) → length w.hdr ≡ 42 → length (captured w buf).hdr ≡ 42
unfolding captured
length-captured w buf full = elim (Bool-cases (ltb w.at 42)) [
  | inl room ↦ rw room (length-copy w.at (min (length buf) (42 - w.at)) buf w.hdr ∙ full)
  | inr out ↦ rw out full
]

captured_lem :
    (w : HdrWrite) (buf : List ℕ) (i : ℕ)
    → length w.hdr ≡ 42
    → get_or (captured w buf).hdr i 0 ≡ (
        if leb w.at i && (ltb i (w.at + length buf) && ltb i 42)
        then get_or buf (i - w.at) 0
        else get_or w.hdr i 0)
unfolding captured
captured_lem w buf i full = elim (Bool-cases (ltb w.at 42)) [
  | inl room ↦
      rw
        (
          room,
          copy_lem w.at (min (length buf) (42 - w.at)) buf w.hdr i (ground arith) (omega arith),
        )
        (ground arith)
  | inr out ↦ rw out (ground arith)
]

module _ (b : Build) where
  write_lem :
      (w : HdrWrite) (buf : List ℕ)
      → w.at + length buf < u64_mod
      → write b w buf ≡ done (length buf, captured w buf)
  unfolding write captured
  write_lem w buf word = rw (add_word_fits b u64_mod w.at (length buf) word)

  -- Chunks written one after another with `HdrWrite`, from any position, are all accepted in every
  -- build: the position moves on by their total length, each byte of the array from the old position
  -- on is that of the concatenation of the chunks, as far as it goes, and the others are as before.
  -- The array has 42 bytes, and the new position is a 64-bit number.
  pub written_from :
      (w : HdrWrite) (bufs : List (List ℕ))
      → length w.hdr ≡ 42
      → w.at + length (concat bufs) < u64_mod
      → (w' : HdrWrite) × (write_each b w bufs ≡ done w')
        × (w'.at ≡ w.at + length (concat bufs))
        × (length w'.hdr ≡ 42)
        × ((i : ℕ)
            → get_or w'.hdr i 0 ≡ (
                if leb w.at i && (ltb i (w.at + length (concat bufs)) && ltb i 42)
                then get_or (concat bufs) (i - w.at) 0
                else get_or w.hdr i 0))
  unfolding write_each
  written_from w [] full word = (w, refl, omega arith, full, λ i. ground arith)
  written_from w (buf ∷ bufs) full word =
      let total = length-append buf (concat bufs) in
      let rest =
        written_from (captured w buf) bufs (length-captured w buf full)
          (omega (arith, total, at-captured w buf)) in
      (
        rest.0,
        rw (write_lem w buf (omega (arith, total))) (rest.1),
        omega (arith, rest.2, total, at-captured w buf),
        rest.3,
        λ i.
            let back : i - (w.at + length buf) ≡ i - w.at - length buf = omega arith in
            rest.4 i
            ∙ rw
                (
                  captured_lem w buf i full,
                  get_or-append buf (concat bufs) (i - w.at) 0,
                  at-captured w buf,
                  total,
                  back,
                )
                (ground arith),
      )
