-- ===== src/Socket/Ownership/Aliasing.antt =====
-- What the loop of `Seek_<_TX>::seek_` does when it takes back more than one frame.
use xdp_rs.Prelude.{
  ℕ, ◌+◌, ◌%◌, ◌^◌, ◌≤◌, ◌<◌, ◌≡◌, ◌≢◌, ap, ◌∙◌, arith, Build, done, ok, get_or-set_self,
  get_or-set_ne,
}
use xdp_rs.Prelude.Words.{u32_mod}
use xdp_rs.Ring.{XdpDesc, new_desc}
use xdp_rs.Ring.Access.{slot-lt}
use xdp_rs.Socket.{TxSocket}
use xdp_rs.Socket.Seek.{tx_seek_}
use xdp_rs.Socket.Valid.{IsTx}
use xdp_rs.Socket.Reclaim.{completed, pending, tx_seek_lem, after}
use xdp_rs.Socket.Submit.{head}
use xdp_rs.Socket.Ownership.Window.{slots_differ}
use xdp_rs.Socket.Ownership.Steps.{x_frame}

-- On a valid TX socket of at least two slots, none of them available, with two completions pending,
-- where the second slot still names the frame that was completed second (as it does when packets are
-- completed in the order in which they were sent): `seek_n(2)` returns 2, and both available slots
-- then name the frame that was completed second.
pub seek_two_aliases :
    (k : ℕ) (b : Build) (s : TxSocket)
    → IsTx k s
    → s.u_ring.mmap.producer < u32_mod
    → 2 ≤ 2 ^ k
    → s.available ≡ 0
    → pending s ≡ 2
    → x_frame s (head k s 1) ≡ completed k s (s.consumer + 1)
    → (tx_seek_ b s 2 ≡ done (ok 2, after k 2 s))
      × (x_frame (after k 2 s) (head k (after k 2 s) 0) ≡ completed k s (s.consumer + 1))
      × (x_frame (after k 2 s) (head k (after k 2 s) 1) ≡ completed k s (s.consumer + 1))
seek_two_aliases k b s w word two empty gap stale =
    (tx_seek_lem k b s 2 w word (omega arith) ∙ rw (empty, gap), first, second)
  where
    first : x_frame (after k 2 s) (head k (after k 2 s) 0) ≡ completed k s (s.consumer + 1)
    first =
        let e : s.producer + 0 ≡ s.producer = omega arith in
        rw e (
          ap (λ (t : XdpDesc). t.addr)
            (get_or-set_self s.x_ring.mmap.desc (s.producer % 2 ^ k) _ (new_desc 0 0 0)
              (omega (arith, w.x.area, slot-lt w.x s.producer))))

    second : x_frame (after k 2 s) (head k (after k 2 s) 1) ≡ completed k s (s.consumer + 1)
    second =
        ap (λ (t : XdpDesc). t.addr)
          (get_or-set_ne s.x_ring.mmap.desc (s.producer % 2 ^ k) (head k s 1) _ (new_desc 0 0 0)
            apart)
        ∙ stale
      where
        apart : s.producer % 2 ^ k ≢ head k s 1
        apart e =
            slots_differ k s.producer 0 1 (omega arith) (omega arith)
              (ap (λ (t : ℕ). t % 2 ^ k) (omega arith) ∙ e)
