-- ===== src/Socket/Ownership/Start.antt =====
-- A TX socket as the code makes it: its TX ring filled from frame 0, and nothing sent.
use native.Mathlib.Nat.{mod-eq_of_lt}
use xdp_rs.Prelude.{
  ℕ, zero, suc, ◌+◌, ◌*◌, ◌%◌, ◌^◌, ◌≤◌, ◌<◌, ◌≡◌, ◌≢◌, refl, sym, ap, ◌∙◌, arith, true, false,
  Bool-cases, ◌==◌, inl, inr, List, [], ◌∷◌, some, none, Build, done, done-injective, get_elem?,
  get_elem?-eq-get_or, length, ltb, if◌then◌else◌,
}
use xdp_rs.Prelude.Words.{u32_mod, pow-lt_u32}
use xdp_rs.Ring.{Ring, XdpDesc, new_desc, with_area}
use xdp_rs.Ring.Const
use xdp_rs.Ring.Access.{IsRing}
use xdp_rs.Ring.Bytes.{umem_size, desc_in, IsFrame}
use xdp_rs.Ring.Descs
use xdp_rs.Ring.Fill.{fill_descs}
use xdp_rs.Socket.{Inner, TxSocket, new, tx}
use xdp_rs.Socket.Fresh.{new-IsTx}
use xdp_rs.Socket.Valid.{IsTx}
use xdp_rs.Socket.Reclaim.{pending}
use xdp_rs.Socket.Submit.{head}
use xdp_rs.Socket.Ownership.Window.{window, times, times-window_split}
use xdp_rs.Socket.Ownership.Steps.{World, x_frame, Completes, Reach, IsOwned}
use xdp_rs.Socket.Ownership.Reachable.{available_differ}

-- The addresses of the first `n` frames.
abbrev pub first_frames : ℕ → List ℕ
first_frames zero = []
first_frames (suc n) = n * Const.frame_size ∷ first_frames n

pub absent_above : (a n : ℕ) → n * Const.frame_size ≤ a → times a (first_frames n) ≡ 0
absent_above a zero h = refl
absent_above a (suc n) h =
    let other : (n * Const.frame_size == a) ≡ false = ground arith in
    rw other (omega (arith, absent_above a n (omega arith)))

pub first_frames_once : (a n : ℕ) → times a (first_frames n) ≤ 1
first_frames_once a zero = omega arith
first_frames_once a (suc n) = elim (Bool-cases (n * Const.frame_size == a)) [
  | inl here ↦ rw here (omega (arith, absent_above a n (ground arith)))
  | inr away ↦ rw away (omega (arith, first_frames_once a n))
]

pub first_frames-IsFrame :
    (a n : ℕ) → n ≤ Const.frame_count → 1 ≤ times a (first_frames n) → IsFrame a
first_frames-IsFrame a zero few h = absurd (omega arith)
first_frames-IsFrame a (suc n) few h = elim (Bool-cases (n * Const.frame_size == a)) [
  | inl here ↦ ground arith
  | inr away ↦ first_frames-IsFrame a n (omega arith) (omega (arith, (rw away at h)))
]

times-window_first :
    (k : ℕ) (e : ℕ → ℕ) (a n : ℕ)
    → ((j : ℕ) → j < 2 ^ k → e j ≡ j * Const.frame_size)
    → n ≤ 2 ^ k
    → times a (window k e 0 n) ≡ times a (first_frames n)
unfolding window
times-window_first k e a zero filled h = refl
times-window_first k e a (suc n) filled h =
    let one_more : n + 1 ≡ suc n = omega arith in
    let start : 0 + n ≡ n = omega arith in
    let slot : n % 2 ^ k ≡ n = mod-eq_of_lt (omega arith) in
    let split =
      rw (one_more, start, slot, filled n (omega arith)) at (times-window_split k e a 0 n 1) in
    omega (arith, split, times-window_first k e a n filled (omega arith))

-- A socket with every slot available, from slot 0 on, and nothing pending.
full-IsOwned :
    (k : ℕ) (s : TxSocket)
    → IsTx k s
    → s.u_ring.mmap.producer < u32_mod
    → s.available ≡ 2 ^ k
    → pending s ≡ 0
    → s.producer ≡ 0
    → ((j : ℕ) → j < 2 ^ k → x_frame s j ≡ j * Const.frame_size)
    → IsOwned k (first_frames (2 ^ k)) (record { socket = s; held = [] })
unfolding window
full-IsOwned k s w word all_free none_pending from filled = record {
  valid = w;
  word = word;
  balance = omega (arith, all_free, none_pending);
  conserved = λ a.
      rw (none_pending, from, all_free)
        (omega (arith, times-window_first k (x_frame s) a (2 ^ k) filled (omega arith)));
}

module _ (k : ℕ) (b : Build) (inner : Inner) (x : Ring XdpDesc) (u : Ring ℕ) (wx : IsRing k x)
    (wu : IsRing k u) (few : 2 ^ k ≤ Const.frame_count) (umem : umem_size ≤ inner.umem.size)
    (start : u.mmap.producer ≡ 0) where
  -- Filling the TX ring of `2 ^ k` slots, at most `FRAME_COUNT`, from frame 0 succeeds in every build,
  -- and the TX socket then made from it, a Completion ring of the same size with producer index 0, and
  -- a UMEM of all frames owns each of the first `2 ^ k` frames, once.
  pub fill-new-IsOwned :
      (x' : Ring XdpDesc) × (Descs.fill b x 0 ≡ done x')
      × IsOwned k (first_frames (2 ^ k)) (record { socket = new tx (some inner) x' u; held = [] })
  unfolding new
  fill-new-IsOwned = (x', filled.1, owned)
    where
      filled :
          (area : List XdpDesc) × (Descs.fill b x 0 ≡ done (with_area x area))
          × (length area ≡ 2 ^ k)
          × ((j : ℕ)
              → get_elem? area j ≡ (
                  if ltb j (2 ^ k) then some (new_desc ((j + 0) * Const.frame_size) 0 0) else none))
      filled = fill_descs k b 0 x wx (omega (arith, pow-lt_u32 k wx.small))

      x' : Ring XdpDesc
      x' = with_area x (filled.0)

      wx' : IsRing k x'
      wx' = record { small = wx.small; ptr = wx.ptr; len = wx.len; mask = wx.mask; area = filled.2 }

      fresh :
          IsTx k (new tx (some inner) x' u)
          × ((new tx (some inner) x' u).available ≡ 2 ^ k)
          × (pending (new tx (some inner) x' u) ≡ 0)
      fresh = new-IsTx k inner x' u wx' wu few umem start

      slots : (j : ℕ) → j < 2 ^ k → (desc_in x' j).addr ≡ j * Const.frame_size
      slots j h =
          let inside : ltb j (2 ^ k) ≡ true = ground arith in
          let same : some (desc_in x' j) ≡ some (new_desc ((j + 0) * Const.frame_size) 0 0) =
            sym (get_elem?-eq-get_or (filled.0) j (new_desc 0 0 0) (omega (arith, filled.2)))
            ∙ rw inside at (filled.3 j) in
          let e : desc_in x' j ≡ new_desc ((j + 0) * Const.frame_size) 0 0 = cc in
          ap (λ (d : XdpDesc). d.addr) e ∙ omega arith

      owned :
          IsOwned k (first_frames (2 ^ k)) (record { socket = new tx (some inner) x' u; held = [] })
      owned =
          full-IsOwned k (new tx (some inner) x' u) (fresh.0) (omega (arith, start)) (fresh.1)
            (fresh.2) refl slots

-- Two available slots of a TX socket name different frames, and so no two packets are written to the
-- same memory, in every state that the socket comes to: it was made, as `create_socket` makes it, from
-- a TX ring of `2 ^ k` slots, at most `FRAME_COUNT`, filled from frame 0, a Completion ring of the same
-- size with producer index 0, and a UMEM of all frames; it was then used by any sequence of calls of
-- `seek` (one slot at a time), `peek` and `commit_n` that return, with completions of the frames that
-- the kernel holds between them. The safety checks are compiled in.
pub fresh_available_differ :
    (k : ℕ) (b : Build) (inner : Inner) (x x' : Ring XdpDesc) (u : Ring ℕ)
    (kernel : World → World → Type 0) (v : World) (i j : ℕ)
    → IsRing k x
    → IsRing k u
    → 2 ^ k ≤ Const.frame_count
    → umem_size ≤ inner.umem.size
    → u.mmap.producer ≡ 0
    → b.checks ≡ true
    → ((w w' : World) → kernel w w' → Completes k w w')
    → Descs.fill b x 0 ≡ done x'
    → Reach k b kernel (record { socket = new tx (some inner) x' u; held = [] }) v
    → i < j
    → j < v.socket.available
    → x_frame v.socket (head k v.socket i) ≢ x_frame v.socket (head k v.socket j)
fresh_available_differ k b inner x x' u kernel v i j wx wu few umem start checks honest ran reached
      lt hj =
    let made = fill-new-IsOwned k b inner x u wx wu few umem start in
    let same : made.0 ≡ x' = done-injective (sym (made.1) ∙ ran) in
    let owned : IsOwned k (first_frames (2 ^ k))
        (record { socket = new tx (some inner) x' u; held = [] }) =
      rw same at made.2 in
    available_differ b kernel checks honest (λ a h. first_frames-IsFrame a (2 ^ k) few h) i j owned
      reached (λ a. first_frames_once a (2 ^ k)) lt hj
