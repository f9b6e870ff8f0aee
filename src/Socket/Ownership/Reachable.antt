-- ===== src/Socket/Ownership/Reachable.antt =====
-- What holds in every state that a TX socket and the kernel reach.
use xdp_rs.Prelude.{
  ℕ, ◌+◌, ◌-◌, ◌%◌, ◌^◌, ◌≤◌, ◌<◌, ◌≡◌, ◌≢◌, refl, sym, ap, ◌∙◌, arith, true, List, Build, done, ok,
  err, if◌then◌else◌, ltb,
}
use xdp_rs.Prelude.Words.{as_u32}
use xdp_rs.Ring.Bytes.{IsFrame}
use xdp_rs.Socket.{TxSocket, not_available}
use xdp_rs.Socket.Seek.{tx_seek_}
use xdp_rs.Socket.Commit.{tx_commit_}
use xdp_rs.Socket.Reclaim.{tx_sought}
use xdp_rs.Socket.Submit.{committed, tx_commit_lem, head}
use xdp_rs.Socket.Ownership.Window.{window, times, times-window_self, times-window_split}
use xdp_rs.Socket.Ownership.Steps.{
  World, x_frame, finished, Completes, Step, seek, peek, commit, kernel_step, Reach, here, next,
  IsOwned,
}
use xdp_rs.Socket.Ownership.Kernel.{completes-IsOwned}
use xdp_rs.Socket.Ownership.Peeking.{peek-IsOwned}
use xdp_rs.Socket.Ownership.Exclusive.{sought_one, seek-IsOwned, commit-IsOwned}

module _ {k : ℕ} {all : List ℕ} (b : Build) (kernel : World → World → Type 0)
    (checks : b.checks ≡ true) (honest : (v v' : World) → kernel v v' → Completes k v v')
    (frames : (a : ℕ) → 1 ≤ times a all → IsFrame a) where
  Step-IsOwned : {v v' : World} → IsOwned k all v → Step k b kernel v v' → IsOwned k all v'
  Step-IsOwned o (seek ran) = seek-IsOwned b o ran
  Step-IsOwned o (peek index len r ran) = peek-IsOwned b o index len r checks frames ran
  Step-IsOwned o (commit n r ran) = commit-IsOwned b n r checks o ran
  Step-IsOwned o (kernel_step t) = completes-IsOwned o (honest _ _ t)

  -- From a state that owns the frames `all`, every sequence of calls of `seek` (one slot at a time),
  -- `peek` and `commit_n` that return, with completions by the kernel between them in any order, comes
  -- to a state that owns the same frames: each address stands, in all, as often as in `all` among the
  -- available slots, the completions not taken back and the frames at the kernel. The safety checks
  -- are compiled in, the kernel completes only frames that it holds, one at a time, and every address
  -- of `all` is that of a frame of the UMEM.
  pub Reach-IsOwned : {v v' : World} → IsOwned k all v → Reach k b kernel v v' → IsOwned k all v'
  Reach-IsOwned o here = o
  Reach-IsOwned o (next r t) = Step-IsOwned (Reach-IsOwned o r) t

  -- Two different available slots name different frames, in every state that a TX socket reaches from one
  -- that owns the frames `all`, each once, by calls of `seek` (one slot at a time), `peek` and `commit_n`
  -- that return, and completions by the kernel. The safety checks are compiled in, the kernel completes
  -- only frames that it holds, one at a time, and every address of `all` is that of a frame of the UMEM.
  pub available_differ :
      {v v' : World} (i j : ℕ)
      → IsOwned k all v
      → Reach k b kernel v v'
      → ((a : ℕ) → times a all ≤ 1)
      → i < j
      → j < v'.socket.available
      → x_frame v'.socket (head k v'.socket i) ≢ x_frame v'.socket (head k v'.socket j)
  available_differ {v} {v'} i j o r once lt hj same = omega (
    arith,
    once a,
    (Reach-IsOwned o r).conserved a,
    times-window_split k (x_frame s) a s.producer (i + 1) (s.available - (i + 1)),
    ap (λ (t : ℕ). times a (window k (x_frame s) s.producer t)) whole,
    times-window_self k (x_frame s) a s.producer (i + 1) i (omega arith) refl,
    times-window_self k (x_frame s) a (s.producer + (i + 1)) (s.available - (i + 1)) (j - (i + 1))
        (omega arith) (ap (λ (t : ℕ). x_frame s (t % 2 ^ k)) slot ∙ sym same),
  )
    where
      s : TxSocket
      s = v'.socket

      a : ℕ
      a = x_frame s (head k s i)

      whole : i + 1 + (s.available - (i + 1)) ≡ s.available
      whole = omega arith

      slot : s.producer + (i + 1) + (j - (i + 1)) ≡ s.producer + j
      slot = omega arith

  -- The frame that an available slot names is neither at the kernel nor among the completions not taken
  -- back, in every state that a TX socket reaches from one that owns the frames `all`, each once, by
  -- calls of `seek` (one slot at a time), `peek` and `commit_n` that return, and completions by the
  -- kernel. The safety checks are compiled in, the kernel completes only frames that it holds, one at a
  -- time, and every address of `all` is that of a frame of the UMEM.
  pub available_not_held :
      {v v' : World} (i : ℕ)
      → IsOwned k all v
      → Reach k b kernel v v'
      → ((a : ℕ) → times a all ≤ 1)
      → i < v'.socket.available
      → (times (x_frame v'.socket (head k v'.socket i)) v'.held ≡ 0)
        × (times (x_frame v'.socket (head k v'.socket i)) (finished k v'.socket) ≡ 0)
  available_not_held {v} {v'} i o r once hi =
      let a = x_frame v'.socket (head k v'.socket i) in
      let total = (Reach-IsOwned o r).conserved a in
      let mine =
        times-window_self k (x_frame v'.socket) a v'.socket.producer v'.socket.available i hi
          refl in
      (omega (arith, once a, total, mine), omega (arith, once a, total, mine))

  -- In every state that a TX socket reaches from one that owns the frames `all`, by calls of `seek` (one
  -- slot at a time), `peek` and `commit_n` that return, and completions by the kernel, the next `seek` of
  -- one slot and the next `commit_n` of any count return, with a result or an error: neither panics,
  -- faults or loops. The safety checks are compiled in, the kernel completes only frames that it holds,
  -- one at a time, and every address of `all` is that of a frame of the UMEM.
  pub calls_return :
      {v v' : World} (n : ℕ)
      → IsOwned k all v
      → Reach k b kernel v v'
      → (tx_seek_ b v'.socket 1 ≡ done (tx_sought k v'.socket 1))
        × (tx_commit_ b v'.socket n ≡ (
            if ltb v'.socket.available (as_u32 n)
            then done (err not_available, v'.socket)
            else done (ok tt, committed (as_u32 n) v'.socket)))
  calls_return {v} {v'} n o r =
      let o' = Reach-IsOwned o r in (sought_one b o', tx_commit_lem o'.valid b n checks)
