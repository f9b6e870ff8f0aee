-- ===== src/Socket/Tests/Sends.antt =====
-- Sending.
use xdp_rs.Prelude.{
  ℕ, zero, suc, ◌<◌, ◌≡◌, refl, arith, true, false, [], ◌∷◌, some, done, Result, ok, err,
}
use xdp_rs.Ring.{new_desc}
use xdp_rs.Socket.{TxSocket, new, tx}
use xdp_rs.Socket.Seek.{tx_seek_}
use xdp_rs.Socket.Peek.{tx_peek_}
use xdp_rs.Socket.Kick.{Reply, commit_and_kick}
use xdp_rs.Socket.Poll.{poll_wait, is_ready, mask}
use xdp_rs.Socket.Send.{send}
use xdp_rs.Socket.Reclaim.{after, tx_seek_lem}
use xdp_rs.Socket.Submit.{committed, peeked, frame_of, tx_peek_lem}
use xdp_rs.Socket.Sending.{overwritten, send_lem}
use xdp_rs.Socket.Waking.{commit_and_kick_lem, poll_wait_lem}
use xdp_rs.Socket.Tests.Sockets.{
  build, libc, inner, descs, addrs, tx_socket, tx_socket-IsTx, tx_completed, tx_completed-IsTx,
}

tx_seek_lem_example : tx_seek_ build tx_completed 1 ≡ done (ok 1, after 1 1 tx_completed)
tx_seek_lem_example =
    tx_seek_lem 1 build tx_completed 1 tx_completed-IsTx (omega arith) (omega arith)

tx_peek_lem_example :
    tx_peek_ build tx_socket 1 60 ≡ done (ok (frame_of 1 tx_socket 1 60), peeked 1 tx_socket 1 60)
tx_peek_lem_example = tx_peek_lem tx_socket-IsTx build 1 60 refl (omega arith)

send_lem_example :
    send build tx_socket (λ i. 0) (7 ∷ 8 ∷ []) (some (9 ∷ []))
    ≡ done (ok tt, committed 1 (peeked 1 tx_socket 0 3), overwritten 0 (9 ∷ 7 ∷ 8 ∷ []) (λ i. 0))
send_lem_example =
    send_lem tx_socket-IsTx build refl (λ i. 0) (7 ∷ 8 ∷ []) (some (9 ∷ [])) (omega arith)
      (omega arith)

abbrev new_tx : TxSocket
new_tx =
    new tx (some inner) (descs 0 (new_desc 0 0 0 ∷ new_desc 2048 0 0 ∷ [])) (addrs 0 (0 ∷ 0 ∷ []))

-- The system calls of the tests: `sendto` fails with EIO, or with EBUSY; `poll` fails once.
abbrev broken : ℕ → Reply
broken fd = err (some 5)

abbrev busy : ℕ → Reply
busy fd = err (some 16)

abbrev polled : ℕ → Result ℕ ℕ
polled zero = err 4
polled (suc n) = ok 4

commit_and_kick_lem_example :
    commit_and_kick libc busy build tx_socket 1 ≡ done (ok tt, true, committed 1 tx_socket)
commit_and_kick_lem_example = commit_and_kick_lem libc busy 1 build tx_socket 1 tx_socket-IsTx refl

not_ready : (a : ℕ) → a < 1 → is_ready (mask libc tx) (polled a) ≡ false
unfolding mask
not_ready zero h = refl
not_ready (suc a) h = absurd (omega arith)

ready_then : is_ready (mask libc tx) (polled 1) ≡ true
unfolding mask
ready_then = refl

poll_wait_lem_example : poll_wait libc busy polled 5 tx_socket (some 100) ≡ done (ok tt, 2)
poll_wait_lem_example =
    poll_wait_lem libc busy polled 1 1 5 tx_socket (some 100) tx_socket-IsTx.x not_ready ready_then
      (omega arith)
