-- ===== src/Socket/Kick.antt =====
-- xdp-socket/src/kick.rs. `sendto` is what the system call on a file descriptor comes to: success,
-- or the raw error number, if any.
use xdp_rs.Prelude.{
  ℕ, Bool, true, false, ◌||◌, Option, none, some, bit_and, Build, Run, done, ◌>>=◌, Result, ok, err,
  IoError, os, ◌==◌, if◌then◌else◌,
}
use xdp_rs.Libc.{Libc}
use xdp_rs.Ring
use xdp_rs.Socket.{Socket, RingError, io}
use xdp_rs.Socket.Commit.{commit_}

abbrev pub Reply : Type 0
Reply = Result (Unit {0}) (Option ℕ)

-- The outcome of a call, and whether it made the system call.
abbrev pub Kicked : Type 0
Kicked = Result (Unit {0}) IoError × Bool

-- The `match` on the error of `sendto`.
unfoldable pub sendto_result : Libc → Reply → Result (Unit {0}) IoError
sendto_result c (ok _) = ok tt
sendto_result c (err none) = ok tt
sendto_result c (err (some e)) =
    if e == c.ebusy || (e == c.enobufs || e == c.eagain)
    then ok tt
    else if e == c.enetdown
    then ok tt
    else err (os e)

module _ (c : Libc) (sendto : ℕ → Reply) {t : Bool} where
  unfoldable pub kick : Socket t → Run Kicked
  unfolding sendto_result
  kick s = do
    flags ← Ring.flags s.x_ring
    if bit_and flags c.xdp_ring_need_wakeup == 0
        then done (ok tt, false)
        else done (sendto_result c (sendto s.raw_fd), true)

  -- `self.kick().map_err(RingError::Io)` after a commit that succeeded
  abbrev pub kick_after :
      Result (Unit {0}) RingError × Socket t → Run (Result (Unit {0}) RingError × Bool × Socket t)
  kick_after (err e, s) = done (err e, false, s)
  kick_after (ok _, s) = do
    k ← kick s
    elim (k.0) [ ok _ ↦ done (ok tt, k.1, s) | err e ↦ done (err (io e), k.1, s) ]

  unfoldable pub commit_and_kick :
      Build → Socket t → ℕ → Run (Result (Unit {0}) RingError × Bool × Socket t)
  commit_and_kick b s n = do committed ← commit_ t b s n; kick_after committed
