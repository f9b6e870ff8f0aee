-- ===== src/Socket/Ownership/Peeking.antt =====
-- A peek keeps each frame in one place: it changes lengths, and no address.
use xdp_rs.Prelude.{
  ℕ, ◌≤◌, ◌<◌, ◌≡◌, ◌≢◌, refl, sym, ap, ◌∙◌, arith, List, Build, done, Result, true, Bool-cases,
  leb, ltb, ◌==◌, inl, inr, ◌⊎◌, get_or-set_self, get_or-set_ne, done-injective,
}
use xdp_rs.Ring.{XdpDesc, new_desc}
use xdp_rs.Ring.Const
use xdp_rs.Ring.Bytes.{IsFrame}
use xdp_rs.Ring.Descs.{Slice}
use xdp_rs.Socket.{TxSocket, RingError}
use xdp_rs.Socket.Peek.{tx_peek_}
use xdp_rs.Socket.Submit.{head, head-lt, peeked, peeked-IsTx, tx_peek_lem, peek_refused}
use xdp_rs.Socket.Ownership.Window.{times, window_congr, times-window_self}
use xdp_rs.Socket.Ownership.Steps.{World, x_frame, ready, IsOwned}

module _ {k : ℕ} {all : List ℕ} {v : World} (b : Build) (o : IsOwned k all v) where
  -- A ready frame is one of the frames that the socket began with.
  pub ready_in_all :
      (index : ℕ)
      → index < v.socket.available
      → 1 ≤ times (x_frame v.socket (head k v.socket index)) all
  ready_in_all index h = omega (
    arith,
    o.conserved (x_frame v.socket (head k v.socket index)),
    times-window_self k (x_frame v.socket) (x_frame v.socket (head k v.socket index))
        v.socket.producer v.socket.available index h refl,
  )

  same_frames : (index len i : ℕ) → x_frame (peeked k v.socket index len) i ≡ x_frame v.socket i
  same_frames index len i = elim (Bool-cases (i == h)) [
    | inl here ↦
        let e : i ≡ h = ground arith in
        rw e (
          ap (λ (t : XdpDesc). t.addr)
            (get_or-set_self v.socket.x_ring.mmap.desc h _ (new_desc 0 0 0)
              (omega (arith, o.valid.x.area, head-lt o.valid b index))))
    | inr away ↦
        let e : h ≢ i = ground arith in
        ap (λ (t : XdpDesc). t.addr)
          (get_or-set_ne v.socket.x_ring.mmap.desc h i _ (new_desc 0 0 0) e)
  ]
    where
      h : ℕ
      h = head k v.socket index

  pub ready-peeked : (index len : ℕ) → ready k (peeked k v.socket index len) ≡ ready k v.socket
  ready-peeked index len =
      window_congr k (x_frame (peeked k v.socket index len)) (x_frame v.socket) v.socket.producer
        v.socket.available (λ j hj. same_frames index len _)

  pub peeked-IsOwned :
      (index len : ℕ)
      → IsOwned k all (record { socket = peeked k v.socket index len; held = v.held })
  peeked-IsOwned index len = record {
    valid = peeked-IsTx o.valid b index len;
    word = o.word;
    balance = o.balance;
    conserved = λ a. omega (arith, o.conserved a, ap (times a) (ready-peeked index len));
  }

  -- A call of `peek` that returns changes nothing or one descriptor's length.
  pub peek_cases :
      {s : TxSocket} (index len : ℕ) (r : Result Slice RingError)
      → b.checks ≡ true
      → ((a : ℕ) → 1 ≤ times a all → IsFrame a)
      → tx_peek_ b v.socket index len ≡ done (r, s)
      → (s ≡ v.socket) ⊎ (s ≡ peeked k v.socket index len)
  peek_cases {s} index len r checks frames ran = elim (Bool-cases (leb v.socket.available index)) [
    | inl out ↦
        let same = rw out at (sym ran ∙ peek_refused o.valid b index len checks (inl out)) in
        inl (ap (λ t. t.1) (done-injective same))
    | inr inside ↦
        let valid : IsFrame (x_frame v.socket (head k v.socket index)) =
          frames _ (ready_in_all index (ground arith)) in
        let same = rw inside at (sym ran ∙ tx_peek_lem o.valid b index len checks valid) in
        elim (Bool-cases (ltb Const.frame_size len)) [
          | inl long ↦ inl (ap (λ t. t.1) (done-injective (rw long at same)))
          | inr fits ↦ elim (Bool-cases (len == Const.frame_size)) [
            | inl whole ↦ let no = rw (fits, whole) at same in cc
            | inr part ↦ inr (ap (λ t. t.1) (done-injective (rw (fits, part) at same)))
          ]
        ]
  ]

  -- A call of `peek` that returns keeps each frame in one place.
  pub peek-IsOwned :
      {s : TxSocket} (index len : ℕ) (r : Result Slice RingError)
      → b.checks ≡ true
      → ((a : ℕ) → 1 ≤ times a all → IsFrame a)
      → tx_peek_ b v.socket index len ≡ done (r, s)
      → IsOwned k all (record { socket = s; held = v.held })
  peek-IsOwned index len r checks frames ran = elim (peek_cases index len r checks frames ran) [
    | inl same ↦ rw same o
    | inr short ↦ rw short (peeked-IsOwned index len)
  ]
