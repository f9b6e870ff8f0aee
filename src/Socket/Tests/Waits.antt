-- ===== src/Socket/Tests/Waits.antt =====
-- Blocking sends, and frames that are fetched.
use xdp_rs.Prelude.{
  ℕ, zero, suc, ◌≡◌, ◌<◌, refl, arith, true, false, [], ◌∷◌, some, done, Result, ok, err,
}
use xdp_rs.Socket.{tx}
use xdp_rs.Socket.Kick.{Reply}
use xdp_rs.Socket.Poll.{is_ready, mask}
use xdp_rs.Socket.Send.{send_blocking}
use xdp_rs.Socket.Submit.{committed, peeked}
use xdp_rs.Socket.Sending.{overwritten}
use xdp_rs.Socket.Blocking.{send_blocking_lem}
use xdp_rs.Socket.Tests.Sockets.{build, libc, tx_socket, tx_socket-IsTx}

-- `sendto` succeeds; the second reply of `poll` is the first without an error.
abbrev woken : ℕ → Reply
woken fd = ok tt

abbrev polled : ℕ → Result ℕ ℕ
polled zero = err 4
polled (suc n) = ok 4

not_ready : (a : ℕ) → a < 1 → is_ready (mask libc tx) (polled a) ≡ false
unfolding mask
not_ready zero h = refl
not_ready (suc a) h = absurd (omega arith)

ready_then : is_ready (mask libc tx) (polled 1) ≡ true
unfolding mask
ready_then = refl

send_blocking_lem_example :
    send_blocking libc woken polled build 2 tx_socket (λ i. 0) (7 ∷ 8 ∷ []) (some (9 ∷ []))
    ≡ done
        (2, (ok tt, committed 1 (peeked 1 tx_socket 0 3), overwritten 0 (9 ∷ 7 ∷ 8 ∷ []) (λ i. 0)))
send_blocking_lem_example =
    send_blocking_lem libc woken polled 1 2 not_ready ready_then (omega arith) 1 tx_socket build
      (λ i. 0) (7 ∷ 8 ∷ []) (some (9 ∷ [])) tx_socket-IsTx refl (omega arith) (omega arith)
