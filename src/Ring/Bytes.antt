-- ===== src/Ring/Bytes.antt =====
-- `mut_bytes_at` and `set` of a ring of packet descriptors.
use native.Mathlib.Nat.{mod-eq_of_lt}
use xdp_rs.Prelude.{ℕ, ◌+◌, ◌*◌, ◌^◌, ◌≤◌, ◌<◌, ◌≡◌, true, arith, Build, done, panic, get_or}
use xdp_rs.Prelude.Words.{as_u32, u64_mod, add_word_fits}
use xdp_rs.Ring.{Ring, XdpDesc, new_desc, with_desc}
use xdp_rs.Ring.Const
use xdp_rs.Ring.Access.{IsRing, desc_at-IsRing, mut_desc_at-IsRing}
use xdp_rs.Ring.Descs.{mut_bytes_at, set}

-- The size of the UMEM in bytes.
abbrev pub umem_size : ℕ
umem_size = Const.frame_size * Const.frame_count

-- The descriptor in a slot.
abbrev pub desc_in : Ring XdpDesc → ℕ → XdpDesc
desc_in r i = get_or r.mmap.desc i (new_desc 0 0 0)

-- A whole frame fits between an address and the end of the UMEM.
abbrev pub IsFrame : ℕ → Type 0
IsFrame addr = addr + Const.frame_size ≤ umem_size

module _ {k : ℕ} {r : Ring XdpDesc} (w : IsRing k r) (few : 2 ^ k ≤ Const.frame_count) where
  -- For a slot of a mapped ring of at most `FRAME_COUNT` entries, whose descriptor names a frame of
  -- the UMEM, and a length below `FRAME_SIZE`, `mut_bytes_at` returns in every build the first `len`
  -- bytes of that frame and sets the descriptor's length.
  pub mut_bytes_at_lem :
      (b : Build) (ptr i len : ℕ)
      → i < 2 ^ k
      → len < Const.frame_size
      → IsFrame (desc_in r i).addr
      → umem_size ≤ ptr
      → mut_bytes_at b r ptr i len
        ≡ done (
          record { start = (desc_in r i).addr; len = len },
          with_desc r i (record (desc_in r i) { len = len }),
        )
  unfolding mut_bytes_at
  mut_bytes_at_lem b ptr i len hi hl frame room =
      let small : as_u32 len ≡ len = mod-eq_of_lt (omega arith) in
      rw
        (
          desc_at-IsRing w b i (new_desc 0 0 0) hi,
          add_word_fits b u64_mod (desc_in r i).addr len (omega arith),
          mut_desc_at-IsRing w b i (λ d. record d { len = as_u32 len }) (new_desc 0 0 0) hi,
          small,
        )
        (ground arith)

  -- A length of `FRAME_SIZE` or more, read as 32 bits, trips an assertion.
  pub mut_bytes_at_panics :
      (b : Build) (ptr i len : ℕ)
      → b.checks ≡ true
      → i < 2 ^ k
      → Const.frame_size ≤ as_u32 len
      → mut_bytes_at b r ptr i len ≡ panic
  unfolding mut_bytes_at
  mut_bytes_at_panics b ptr i len checks hi hl = ground arith

  -- `set` with a slot of the ring and a length below `FRAME_SIZE` writes, in every build, the
  -- descriptor of the frame with the slot's own number, and nothing else.
  pub set_lem :
      (b : Build) (i len : ℕ)
      → i < 2 ^ k
      → len < Const.frame_size
      → set b r i len ≡ done (with_desc r i (new_desc (i * Const.frame_size) len 0))
  unfolding set
  set_lem b i len hi hl =
      rw (mut_desc_at-IsRing w b i (λ _. new_desc (i * Const.frame_size) len 0) (new_desc 0 0 0) hi)
        (ground arith)
