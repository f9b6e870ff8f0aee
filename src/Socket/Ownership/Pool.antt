-- ===== src/Socket/Ownership/Pool.antt =====
-- What a TX socket promises about its frames, without rings and indices: three lists.
use xdp_rs.Prelude.{
  ℕ, ◌+◌, ◌-◌, ◌%◌, ◌^◌, ◌≤◌, ◌≡◌, sym, ap, ◌∙◌, arith, List, [], ◌∷◌, ◌++◌, Build, done, Result,
  true, Bool-cases, ltb, inl, inr, done-injective,
}
use xdp_rs.Prelude.Words.{as_u32, wrapping_add, wrap-mod}
use xdp_rs.Ring.Bytes.{IsFrame}
use xdp_rs.Socket.{TxSocket, RingError}
use xdp_rs.Socket.Commit.{tx_commit_}
use xdp_rs.Socket.Submit.{committed, tx_commit_lem}
use xdp_rs.Socket.Ownership.Window.{window, window_split, window-mod, times}
use xdp_rs.Socket.Ownership.Steps.{
  World, x_frame, u_frame, ready, finished, handed, Completes, Step, seek, peek, commit,
  kernel_step, Reach, here, next, IsOwned,
}
use xdp_rs.Socket.Ownership.Kernel.{same_ready, finished_next}
use xdp_rs.Socket.Ownership.Peeking.{peek_cases, ready-peeked}
use xdp_rs.Socket.Ownership.Exclusive.{
  seek_cases, ready-after, ready_none, finished_before, finished-after,
}
use xdp_rs.Socket.Ownership.Reachable.{Reach-IsOwned}

-- The frames that the program may write to, those that have come back, and those at the kernel.
pub record Pool : Type 0 where
  pub writable : List ℕ
  pub back : List ℕ
  pub out : List ℕ

abbrev pub pool : ℕ → World → Pool
pool k v = record { writable = ready k v.socket; back = finished k v.socket; out = v.held }

-- A frame is taken back only when none is writable, and the one that came back first; the frames that
-- are handed over are the first writable ones; and a frame that the kernel holds comes back last.
pub data PoolStep : Pool → Pool → Type 0 where
  take_back :
      {f : ℕ} {back out : List ℕ}
      → PoolStep
          (record { writable = []; back = f ∷ back; out = out })
          (record { writable = f ∷ []; back = back; out = out })
  hand_over :
      (front : List ℕ) {writable back out : List ℕ}
      → PoolStep
          (record { writable = front ++ writable; back = back; out = out })
          (record { writable = writable; back = back; out = front ++ out })
  complete :
      (f : ℕ) {writable back out out' : List ℕ}
      → ((x : ℕ) → times x out ≡ times x (f ∷ out'))
      → PoolStep
          (record { writable = writable; back = back; out = out })
          (record { writable = writable; back = back ++ (f ∷ []); out = out' })

pub data PoolReach (p : Pool) : Pool → Type 0 where
  start : PoolReach p p
  then : {q r : Pool} → PoolReach p q → PoolStep q r → PoolReach p r

-- The same steps by what the lists are.
taken_back :
    {w w' r r' out : List ℕ} (f : ℕ)
    → w ≡ []
    → r ≡ f ∷ r'
    → w' ≡ f ∷ []
    → PoolStep
        (record { writable = w; back = r; out = out })
        (record { writable = w'; back = r'; out = out })
taken_back f empty first one = rw (empty, first, one) take_back

handed_over :
    {w r out : List ℕ} (front w' : List ℕ)
    → w ≡ front ++ w'
    → PoolStep
        (record { writable = w; back = r; out = out })
        (record { writable = w'; back = r; out = front ++ out })
handed_over front w' split = rw split (hand_over front)

completed :
    {w w' r r' out out' : List ℕ} (f : ℕ)
    → ((x : ℕ) → times x out ≡ times x (f ∷ out'))
    → w' ≡ w
    → r' ≡ r ++ (f ∷ [])
    → PoolStep
        (record { writable = w; back = r; out = out })
        (record { writable = w'; back = r'; out = out' })
completed f gave same grown = rw (same, grown) (complete f gave)

same_lists :
    {w w' r out : List ℕ}
    → w' ≡ w
    → PoolReach
        (record { writable = w; back = r; out = out })
        (record { writable = w'; back = r; out = out })
same_lists same = rw same start

one_step : {p q : Pool} → PoolStep p q → PoolReach p q
one_step s = then start s

reach_trans : {p q r : Pool} → PoolReach p q → PoolReach q r → PoolReach p r
reach_trans x start = x
reach_trans x (then y s) = then (reach_trans x y) s

module _ {k : ℕ} {all : List ℕ} (b : Build) (checks : b.checks ≡ true)
    (frames : (a : ℕ) → 1 ≤ times a all → IsFrame a) where
  handed_refines :
      {v : World} (m : ℕ)
      → IsOwned k all v
      → m ≤ v.socket.available
      → PoolReach (pool k v) (
          pool k (record {
            socket = committed m v.socket;
            held = window k (x_frame v.socket) v.socket.producer m ++ v.held;
          }))
  handed_refines {v} m o h =
      let together : m + (v.socket.available - m) ≡ v.socket.available = omega arith in
      let rest : List ℕ =
        window k (x_frame v.socket) (v.socket.producer + m) (v.socket.available - m) in
      let moved =
        window-mod k (x_frame v.socket) (wrapping_add v.socket.producer m) (v.socket.producer + m)
          (v.socket.available - m)
          (wrap-mod k (v.socket.producer + m) (omega (arith, o.valid.x.small))) in
      one_step (
        handed_over (window k (x_frame v.socket) v.socket.producer m) _ (
          ap (window k (x_frame v.socket) v.socket.producer) (sym together)
          ∙ (window_split k (x_frame v.socket) v.socket.producer m (v.socket.available - m)
              ∙ ap (λ l. window k (x_frame v.socket) v.socket.producer m ++ l) (sym moved))))

  commit_refines :
      {v : World} {s : TxSocket} (n : ℕ) (r : Result (Unit {0}) RingError)
      → IsOwned k all v
      → tx_commit_ b v.socket n ≡ done (r, s)
      → PoolReach
          (pool k v)
          (pool k (record { socket = s; held = handed k v.socket n r ++ v.held }))
  commit_refines {v} {s} n r o ran =
      let same = sym ran ∙ tx_commit_lem o.valid b n checks in
      elim (Bool-cases (ltb v.socket.available (as_u32 n))) [
        | inl short ↦
            let e = done-injective (rw short at same) in rw (ap (λ t. t.0) e, ap (λ t. t.1) e) start
        | inr enough ↦
            let e = done-injective (rw enough at same) in
            rw (ap (λ t. t.0) e, ap (λ t. t.1) e) (handed_refines (as_u32 n) o (ground arith))
      ]

  step_refines :
      {v v' : World}
      → IsOwned k all v
      → Step k b (Completes k) v v'
      → PoolReach (pool k v) (pool k v')
  step_refines {v} {v'} o (seek ran) = elim (seek_cases b o ran) [
    | inl same ↦ rw same start
    | inr (d, empty, gap, taken) ↦ rw taken (
        one_step (
          taken_back (u_frame v.socket (v.socket.consumer % 2 ^ k)) (ready_none k v.socket empty)
            (finished_before k v.socket d gap
              ∙ ap (λ l. u_frame v.socket (v.socket.consumer % 2 ^ k) ∷ l)
                  (sym (finished-after k v.socket d o.valid o.word gap)))
            (ready-after k v.socket o.valid empty)))
  ]
  step_refines {v} {v'} o (peek index len r ran) =
      elim (peek_cases b o index len r checks frames ran) [
        | inl same ↦ rw same start
        | inr short ↦ rw short (same_lists (ready-peeked b o index len))
      ]
  step_refines {v} {v'} o (commit n r ran) = commit_refines n r o ran
  step_refines {v} {v'} o (kernel_step c) =
      one_step (completed c.a c.gave (same_ready o c) (finished_next o c))

  -- Whatever a TX socket and the kernel do together, the pool of its frames could have done: every
  -- sequence of calls of `seek` (one slot at a time), `peek` and `commit_n` that return, with completions
  -- by the kernel between them in any order, is, for the lists of writable frames, of frames that came
  -- back and of frames at the kernel, a sequence of the pool's steps. It begins in a state that owns its
  -- frames, each the address of a frame of the UMEM; the safety checks are compiled in, and the kernel
  -- completes only frames that it holds, one at a time.
  pub reach_refines :
      {v v' : World}
      → IsOwned k all v
      → Reach k b (Completes k) v v'
      → PoolReach (pool k v) (pool k v')
  reach_refines o here = start
  reach_refines o (next r t) =
      reach_trans (reach_refines o r)
        (step_refines (Reach-IsOwned b (Completes k) checks (λ v v' c. c) frames o r) t)
