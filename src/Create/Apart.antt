-- ===== src/Create/Apart.antt =====
-- The created sockets in use: no two packets share a frame.
use xdp_rs.Prelude.{
  ℕ, ◌+◌, ◌*◌, ◌^◌, ◌≤◌, ◌<◌, ◌≡◌, ◌≢◌, refl, sym, ap, ◌∙◌, arith, true, [], Bool, Option, some,
  Build, done, done-injective, Result, ok, IoError, get_elem?, ltb, Bool-cases, inl, inr,
}
use xdp_rs.Libc.{Libc}
use xdp_rs.Mmap.{HugePageInfo, use_huge}
use xdp_rs.Ring.Const
use xdp_rs.Socket.{TxSocket, RxSocket}
use xdp_rs.Socket.Submit.{head}
use xdp_rs.Socket.Ownership.Window.{times-window_self}
use xdp_rs.Socket.Ownership.Steps.{World, x_frame, Completes, Reach, IsOwned}
use xdp_rs.Socket.Ownership.Start.{
  first_frames, first_frames_once, first_frames-IsFrame, absent_above,
}
use xdp_rs.Socket.Ownership.Reachable.{Reach-IsOwned, available_differ}
use xdp_rs.System.{Kernel, Process}
use xdp_rs.Create.{XdpConfig, huge_page_of, create_tx_socket, create_bi_socket}
use xdp_rs.Create.Honest.{Grants, IsNumbered}
use xdp_rs.Create.Made.{create_tx_lem}
use xdp_rs.Create.Both.{create_bi_lem}

pub ok-injective :
    {A : Type 0} {a b : A} {p q : Process}
    → ◌≡◌ {A = Result A IoError × Process} (ok a, p) (ok b, q)
    → a ≡ b
ok-injective h = cc

-- A frame of an available slot is one of those that the socket began with.
available-lt :
    {k : ℕ} (n : ℕ) {v : World} (i : ℕ)
    → IsOwned k (first_frames n) v
    → i < v.socket.available
    → x_frame v.socket (head k v.socket i) < n * Const.frame_size
available-lt {k} n {v} i o h =
    let a = x_frame v.socket (head k v.socket i) in
    let mine =
      times-window_self k (x_frame v.socket) a v.socket.producer v.socket.available i h refl in
    let total = o.conserved a in
    elim (Bool-cases (ltb a (n * Const.frame_size))) [
      | inl below ↦ ground arith
      | inr above ↦ absurd (omega (arith, mine, total, absent_above a n (ground arith)))
    ]

module _ (c : Libc) (k : Kernel) (info : Result HugePageInfo IoError) (b : Build)
    (if_index if_queue q : ℕ) (config : Option XdpConfig) (huge : Bool) (p : Process)
    (grants : Grants c k) (numbered : IsNumbered c) (page : k.page_size ≡ 2 ^ q) (small : q ≤ 30)
    (settled : use_huge (huge_page_of config) info ≡ ok huge) (checks : b.checks ≡ true)
    (kernel : World → World → Type 0) where
  -- A TX socket that `create_tx_socket` returned never has two available slots that name the same frame,
  -- whatever sequence of calls of `seek` (one slot at a time), `peek` and `commit_n` that return, with
  -- completions by the kernel between them, it has gone through. The system grants every call, has UMEM
  -- pages of `2 ^ q` bytes, `q` at most 30, and four ring numbers; the huge page setting is decided, the
  -- safety checks are compiled in, and the kernel completes only frames that it holds, one at a time.
  pub created_available_differ :
      (t : TxSocket) (p' : Process) (v : World) (i j : ℕ)
      → ((w w' : World) → kernel w w' → Completes 12 w w')
      → create_tx_socket c k info b if_index if_queue config p ≡ done (ok t, p')
      → Reach 12 b kernel (record { socket = t; held = [] }) v
      → i < j
      → j < v.socket.available
      → x_frame v.socket (head 12 v.socket i) ≢ x_frame v.socket (head 12 v.socket j)
  created_available_differ t p' v i j honest ran reached lt hj =
      let made =
        create_tx_lem c k info b if_index if_queue q config huge p grants numbered page small
          settled in
      let same : made.0 ≡ t = ok-injective (done-injective (sym (made.2) ∙ ran)) in
      let owned : IsOwned 12 (first_frames Const.frame_count) (record { socket = t; held = [] }) =
        rw same at made.3 in
      available_differ b kernel checks honest
        (λ a h. first_frames-IsFrame a Const.frame_count (omega arith) h) i j owned reached
        (λ a. first_frames_once a Const.frame_count) lt hj

  -- The frames that the TX socket of a pair made by `create_bi_socket` may write to are never those that
  -- the pair's Fill ring was given for received packets: in every state that the TX socket comes to by
  -- calls of `seek` (one slot at a time), `peek` and `commit_n` that return, and completions by the
  -- kernel, no entry that the Fill ring had at the creation names the frame of an available slot. The
  -- system grants every call, has UMEM pages of `2 ^ q` bytes, `q` at most 30, and four ring numbers; the
  -- huge page setting is decided, the safety checks are compiled in, and the kernel completes only frames
  -- that it holds, one at a time.
  pub pair_apart :
      (t : TxSocket) (r : RxSocket) (p' : Process) (v : World) (i j : ℕ)
      → ((w w' : World) → kernel w w' → Completes 11 w w')
      → create_bi_socket c k info b if_index if_queue config p ≡ done (ok (t, r), p')
      → Reach 11 b kernel (record { socket = t; held = [] }) v
      → i < v.socket.available
      → get_elem? r.u_ring.mmap.desc j ≢ some (x_frame v.socket (head 11 v.socket i))
  pair_apart t r p' v i j honest ran reached hi entry =
      let made =
        create_bi_lem c k info b if_index if_queue q config huge p grants numbered page small
          settled in
      let same : (made.0, made.1) ≡ (t, r) = ok-injective (done-injective (sym (made.3) ∙ ran)) in
      let same_t : made.0 ≡ t = ap (λ (z : TxSocket × RxSocket). z.0) same in
      let same_r : made.1 ≡ r = ap (λ (z : TxSocket × RxSocket). z.1) same in
      let owned : IsOwned 11 (first_frames 2048) (record { socket = t; held = [] }) =
        rw same_t at made.4 in
      let o =
        Reach-IsOwned b kernel checks honest (λ a h. first_frames-IsFrame a 2048 (omega arith) h)
          owned reached in
      let below = available-lt 2048 i o hi in
      let filled = rw same_r at (made.8 j) in
      elim (Bool-cases (ltb j 2048)) [
        | inl inside ↦
            let named = sym (rw inside at filled) ∙ entry in
            let there : (j + 2048) * Const.frame_size ≡ x_frame v.socket (head 11 v.socket i) =
              cc in
            omega (arith, below, there)
        | inr outside ↦ let absent = sym (rw outside at filled) ∙ entry in cc
      ]
