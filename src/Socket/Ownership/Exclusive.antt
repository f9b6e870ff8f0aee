-- ===== src/Socket/Ownership/Exclusive.antt =====
-- Every step keeps each frame in one place.
use native.Mathlib.Nat.{add-zero}
use xdp_rs.Prelude.{
  ℕ, suc, ◌+◌, ◌-◌, ◌%◌, ◌^◌, ◌≤◌, ◌<◌, ◌≡◌, sym, ap, ◌∙◌, arith, min, List, [], ◌∷◌, ◌++◌, Build,
  done, Result, true, false, Bool-cases, leb, ltb, ◌==◌, inl, inr, ◌⊎◌, get_or-set_self,
  length-append, done-injective, ℕ-cases,
}
use xdp_rs.Prelude.Words.{u32_mod, as_u32, wrapping_add, wrapping_sub, pow_pos, wrap-mod}
use xdp_rs.Ring.{XdpDesc, new_desc}
use xdp_rs.Ring.Access.{slot-lt}
use xdp_rs.Socket.{TxSocket, RingError}
use xdp_rs.Socket.Seek.{tx_seek_}
use xdp_rs.Socket.Commit.{tx_commit_}
use xdp_rs.Socket.Reclaim.{pending, tx_sought, tx_seek_lem, after, after-IsTx}
use xdp_rs.Socket.Submit.{committed, committed-IsTx, tx_commit_lem}
use xdp_rs.Socket.Valid.{IsTx}
use xdp_rs.Socket.Ownership.Window.{
  window, times, times-append, length-window, window-mod, times-window_split,
}
use xdp_rs.Socket.Ownership.Steps.{World, x_frame, u_frame, ready, finished, handed, IsOwned}

-- `seek_` of one slot, by cases.
pub sought_one :
    {k : ℕ} {all : List ℕ} {v : World} (b : Build)
    → IsOwned k all v
    → tx_seek_ b v.socket 1 ≡ done (tx_sought k v.socket 1)
sought_one {k} {all} {v} b o = tx_seek_lem k b v.socket 1 o.valid o.word (omega (arith, o.balance))

-- What is pending after one completion was taken.
pending_next :
    (s : TxSocket) (d : ℕ)
    → s.u_ring.mmap.producer < u32_mod
    → s.consumer < u32_mod
    → pending s ≡ suc d
    → wrapping_sub s.u_ring.mmap.producer ((s.consumer + 1) % u32_mod) ≡ d
pending_next s d hp hc gap = omega arith

landed :
    (k : ℕ) (s : TxSocket)
    → IsTx k s
    → x_frame (after k 1 s) (s.producer % 2 ^ k) ≡ u_frame s (s.consumer % 2 ^ k)
landed k s w =
    ap (λ (t : XdpDesc). t.addr)
      (get_or-set_self s.x_ring.mmap.desc (s.producer % 2 ^ k) _ (new_desc 0 0 0)
        (omega (arith, w.x.area, slot-lt w.x s.producer)))
    ∙ rw add-zero

-- The entry just taken is the only one that is ready.
pub ready-after :
    (k : ℕ) (s : TxSocket)
    → IsTx k s
    → s.available ≡ 0
    → ready k (after k 1 s) ≡ u_frame s (s.consumer % 2 ^ k) ∷ []
unfolding window
ready-after k s w empty =
    let one : s.available + 1 ≡ 1 = omega arith in rw one (ap (λ (t : ℕ). t ∷ []) (landed k s w))

pub ready_none : (k : ℕ) (s : TxSocket) → s.available ≡ 0 → ready k s ≡ []
unfolding window
ready_none k s empty = rw empty

pub finished_before :
    (k : ℕ) (s : TxSocket) (d : ℕ)
    → pending s ≡ suc d
    → finished k s ≡ u_frame s (s.consumer % 2 ^ k) ∷ window k (u_frame s) (s.consumer + 1) d
unfolding window
finished_before k s d gap = rw gap

pub finished-after :
    (k : ℕ) (s : TxSocket) (d : ℕ)
    → IsTx k s
    → s.u_ring.mmap.producer < u32_mod
    → pending s ≡ suc d
    → finished k (after k 1 s) ≡ window k (u_frame s) (s.consumer + 1) d
finished-after k s d w hp gap = rw (pending_next s d hp w.c_word gap) (
    window-mod k (u_frame s) ((s.consumer + 1) % u32_mod) (s.consumer + 1) d
      (wrap-mod k (s.consumer + 1) (omega (arith, w.x.small))))

-- Taking one completion back.
reclaim-IsOwned :
    {k : ℕ} {all : List ℕ} {v : World} (b : Build) (d : ℕ)
    → IsOwned k all v
    → v.socket.available ≡ 0
    → pending v.socket ≡ suc d
    → IsOwned k all (record { socket = after k 1 v.socket; held = v.held })
reclaim-IsOwned {k} {all} {v} b d o empty gap = record {
  valid = after-IsTx b 1 o.valid (omega (arith, empty, pow_pos k));
  word = o.word;
  balance = omega (arith, pending_next v.socket d o.word o.valid.c_word gap, o.balance);
  conserved = λ a. omega (
    arith,
    o.conserved a,
    ap (times a) (ready-after k v.socket o.valid empty),
    ap (times a) (finished-after k v.socket d o.valid o.word gap),
    ap (times a) (finished_before k v.socket d gap),
    ap (times a) (ready_none k v.socket empty),
  );
}

-- A call of `seek` changes nothing, or takes back one completion where no slot was available.
pub seek_cases :
    {k : ℕ} {all : List ℕ} {v : World} {r : Result ℕ RingError} {s : TxSocket} (b : Build)
    → IsOwned k all v
    → tx_seek_ b v.socket 1 ≡ done (r, s)
    → (s ≡ v.socket)
      ⊎ ((d : ℕ) × (v.socket.available ≡ 0) × (pending v.socket ≡ suc d) × (s ≡ after k 1 v.socket))
seek_cases {k} {all} {v} {r} {s} b o ran =
    let same : tx_sought k v.socket 1 ≡ (r, s) = done-injective (sym (sought_one b o) ∙ ran) in
    elim (ℕ-cases v.socket.available) [
      | inr (n, some_left) ↦
          let enough : leb 1 v.socket.available ≡ true = ground arith in
          inl (ap (λ t. t.1) (sym (rw enough at same)))
      | inl empty ↦
          let short : leb 1 v.socket.available ≡ false = ground arith in
          elim (ℕ-cases (pending v.socket)) [
            | inl nothing ↦ inl (ap (λ t. t.1) (sym (rw (short, nothing) at same)))
            | inr (d, gap) ↦
                let more : (pending v.socket == 0) ≡ false = ground arith in
                let one : min (1 - v.socket.available) (pending v.socket) ≡ 1 = omega arith in
                inr (d, empty, gap, ap (λ t. t.1) (sym (rw (short, more, one) at same)))
          ]
    ]

-- A call of `seek` keeps each frame in one place.
pub seek-IsOwned :
    {k : ℕ} {all : List ℕ} {v : World} {r : Result ℕ RingError} {s : TxSocket} (b : Build)
    → IsOwned k all v
    → tx_seek_ b v.socket 1 ≡ done (r, s)
    → IsOwned k all (record { socket = s; held = v.held })
seek-IsOwned b o ran = elim (seek_cases b o ran) [
  | inl same ↦ rw same o
  | inr (d, empty, gap, taken) ↦ rw taken (reclaim-IsOwned b d o empty gap)
]

pub handed-IsOwned :
    {k : ℕ} {all : List ℕ} {v : World} (b : Build) (m : ℕ)
    → IsOwned k all v
    → m ≤ v.socket.available
    → IsOwned k all (record {
      socket = committed m v.socket;
      held = window k (x_frame v.socket) v.socket.producer m ++ v.held;
    })
handed-IsOwned {k} {all} {v} b m o h = record {
  valid = committed-IsTx o.valid b m h;
  word = o.word;
  balance = omega (
    arith,
    o.balance,
    length-append (window k (x_frame v.socket) v.socket.producer m) v.held,
    length-window k (x_frame v.socket) v.socket.producer m,
  );
  conserved = λ a. omega (
    arith,
    o.conserved a,
    times-append a (window k (x_frame v.socket) v.socket.producer m) v.held,
    times-window_split k (x_frame v.socket) a v.socket.producer m (v.socket.available - m),
    ap (λ (t : ℕ). times a (window k (x_frame v.socket) v.socket.producer t)) together,
    ap (times a) (
        window-mod k (x_frame v.socket) (wrapping_add v.socket.producer m) (v.socket.producer + m)
          (v.socket.available - m)
          (wrap-mod k (v.socket.producer + m) (omega (arith, o.valid.x.small)))),
  );
}
  where
    together : m + (v.socket.available - m) ≡ v.socket.available
    together = omega arith

-- A call of `commit` hands the first available slots over, or is refused.
pub commit-IsOwned :
    {k : ℕ} {all : List ℕ} {v : World} {s : TxSocket} (b : Build) (n : ℕ)
    (r : Result (Unit {0}) RingError)
    → b.checks ≡ true
    → IsOwned k all v
    → tx_commit_ b v.socket n ≡ done (r, s)
    → IsOwned k all (record { socket = s; held = handed k v.socket n r ++ v.held })
commit-IsOwned {k} {all} {v} {s} b n r checks o ran =
    let same = sym ran ∙ tx_commit_lem o.valid b n checks in
    elim (Bool-cases (ltb v.socket.available (as_u32 n))) [
      | inl short ↦
          let e = done-injective (rw short at same) in rw (ap (λ t. t.0) e, ap (λ t. t.1) e) o
      | inr enough ↦
          let e = done-injective (rw enough at same) in
          rw (ap (λ t. t.0) e, ap (λ t. t.1) e) (handed-IsOwned b (as_u32 n) o (ground arith))
    ]
