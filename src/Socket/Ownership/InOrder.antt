-- ===== src/Socket/Ownership/InOrder.antt =====
-- A TX socket that sends all its frames, of which the kernel completes the first two in order.
use native.Mathlib.Nat.{mod-eq_of_lt, mod-add-mod, add-mod_right}
use xdp_rs.Prelude.{
  ℕ, ◌+◌, ◌%◌, ◌^◌, ◌≤◌, ◌≡◌, refl, sym, ap, ◌∙◌, arith, true, false, List, Build, done, ok, ltb,
}
use xdp_rs.Prelude.Words.{as_u32, wrapping_add, wrap-mod, pow-lt_u32}
use xdp_rs.Socket.Commit.{tx_commit_}
use xdp_rs.Socket.Seek.{tx_seek_}
use xdp_rs.Socket.Reclaim.{completed, pending, after}
use xdp_rs.Socket.Submit.{committed, head, tx_commit_lem}
use xdp_rs.Socket.Ownership.Steps.{World, x_frame, u_frame, handed, Completes, IsOwned}
use xdp_rs.Socket.Ownership.Kernel.{more, new_entry, completes-IsOwned}
use xdp_rs.Socket.Ownership.Exclusive.{commit-IsOwned}
use xdp_rs.Socket.Ownership.Aliasing.{seek_two_aliases}
use xdp_rs.Prelude.{◌++◌}

-- Going round the ring once comes back to the same slot.
around : (k p : ℕ) → k ≤ 31 → (wrapping_add p (2 ^ k) + 1) % 2 ^ k ≡ (p + 1) % 2 ^ k
around k p small =
    sym (mod-add-mod (wrapping_add p (2 ^ k)) (2 ^ k) 1)
    ∙ (ap (λ t. (t + 1) % 2 ^ k) (wrap-mod k (p + 2 ^ k) (omega arith) ∙ add-mod_right p (2 ^ k))
        ∙ mod-add-mod p (2 ^ k) 1)

-- The state after all slots were handed over.
abbrev pub all_sent : ℕ → World → World
all_sent k v = record {
  socket = committed (2 ^ k) v.socket;
  held = handed k v.socket (2 ^ k) (ok tt) ++ v.held;
}

module _ {k : ℕ} {all : List ℕ} {v : World} (b : Build) (checks : b.checks ≡ true)
    (o : IsOwned k all v) (free : v.socket.available ≡ 2 ^ k) where
  all_sent_lem : tx_commit_ b v.socket (2 ^ k) ≡ done (ok tt, committed (2 ^ k) v.socket)
  all_sent_lem =
      let word : as_u32 (2 ^ k) ≡ 2 ^ k = mod-eq_of_lt (pow-lt_u32 k o.valid.x.small) in
      let enough : ltb (2 ^ k) (2 ^ k) ≡ false = ground arith in
      rw (tx_commit_lem o.valid b (2 ^ k) checks, word, free, enough) refl

  all_sent-IsOwned : IsOwned k all (all_sent k v)
  all_sent-IsOwned = commit-IsOwned b (2 ^ k) (ok tt) checks o all_sent_lem

  -- The first two frames that were sent come back in order, and are taken back by one call.
  pub two_back :
      (v1 v2 : World) (first : Completes k (all_sent k v) v1) (second : Completes k v1 v2)
      → 2 ≤ 2 ^ k
      → second.a ≡ x_frame v.socket (head k v.socket 1)
      → (tx_commit_ b v.socket (2 ^ k) ≡ done (ok tt, committed (2 ^ k) v.socket))
        × (tx_seek_ b v2.socket 2 ≡ done (ok 2, after k 2 v2.socket))
        × (x_frame (after k 2 v2.socket) (head k (after k 2 v2.socket) 0) ≡ second.a)
        × (x_frame (after k 2 v2.socket) (head k (after k 2 v2.socket) 1) ≡ second.a)
  two_back v1 v2 first second two in_order =
      let o1 = completes-IsOwned all_sent-IsOwned first in
      let o2 = completes-IsOwned o1 second in
      let one_pending : pending v1.socket ≡ 1 =
        omega (arith, o.balance, free, more all_sent-IsOwned first) in
      let two_pending : pending v2.socket ≡ 2 = omega (arith, one_pending, more o1 second) in
      let none_free : v2.socket.available ≡ 0 =
        omega (arith, second.available, first.available, free) in
      let came : u_frame v2.socket ((v1.socket.consumer + 1) % 2 ^ k) ≡ second.a =
        rw one_pending at (new_entry o1 second) in
      let named : x_frame v2.socket (head k v2.socket 1) ≡ x_frame v.socket (head k v.socket 1) =
        rw
          (
            second.x_desc,
            first.x_desc,
            second.producer,
            first.producer,
            around k v.socket.producer o.valid.x.small,
          )
          refl in
      let back : completed k v2.socket (v2.socket.consumer + 1) ≡ second.a =
        rw second.consumer came in
      let stale : x_frame v2.socket (head k v2.socket 1)
          ≡ completed k v2.socket (v2.socket.consumer + 1) =
        named ∙ (sym in_order ∙ sym back) in
      let taken = seek_two_aliases k b v2.socket o2.valid o2.word two none_free two_pending stale in
      (all_sent_lem, taken.0, taken.1 ∙ back, taken.2 ∙ back)
