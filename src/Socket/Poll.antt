-- ===== src/Socket/Poll.antt =====
-- xdp-socket/src/poll.rs. `poll i` is what the `i`-th `poll` system call comes to: the returned
-- events, or an error.
use xdp_rs.Prelude.{
  ℕ, zero, suc, ◌+◌, Bool, true, false, Option, bit_and, Run, done, hang, ◌>>=◌, Result, ok, err,
  IoError, not, ◌==◌, if◌then◌else◌,
}
use xdp_rs.Libc.{Libc}
use xdp_rs.Socket.{Socket}
use xdp_rs.Socket.Kick.{Reply, Kicked, kick}

-- The events that end the wait, by direction.
unfoldable pub mask : Libc → Bool → ℕ
mask c true = c.pollout
mask c false = c.pollin

-- Whether a reply of `poll` ends the loop: an error of `poll` does not.
abbrev pub is_ready : ℕ → Result ℕ ℕ → Bool
is_ready m (ok revents) = not (bit_and revents m == 0)
is_ready m (err e) = false

-- The loop from the `i`-th call on, with fuel; it returns the number of calls made in all.
unfoldable pub poll_loop : (ℕ → Result ℕ ℕ) → ℕ → ℕ → ℕ → Run ℕ
poll_loop poll m zero i = hang
poll_loop poll m (suc fuel) i =
    let rest = poll_loop poll m fuel (i + 1) in if is_ready m (poll i) then done (i + 1) else rest

module _ (c : Libc) (sendto : ℕ → Reply) (poll : ℕ → Result ℕ ℕ) where
  -- What follows `self.kick()?` for a socket of direction `t`, with the number of calls of `poll`.
  abbrev pub wait_after : Bool → ℕ → Kicked → Run (Result (Unit {0}) IoError × ℕ)
  wait_after t fuel (err e, woken) = done (err e, 0)
  wait_after t fuel (ok _, woken) = do calls ← poll_loop poll (mask c t) fuel 0; done (ok tt, calls)

  -- The time limit is taken and not read, as in the source.
  unfoldable pub poll_wait :
      {t : Bool} → ℕ → Socket t → Option ℕ → Run (Result (Unit {0}) IoError × ℕ)
  unfolding poll_loop mask
  poll_wait {t} fuel s timeout = do kicked ← kick c sendto s; wait_after t fuel kicked
