-- ===== src/XdpTests/Pingpong.antt =====
-- The test of xdp-tests/src/pingpong_test.rs.
use xdp_rs.Prelude.{
  ℕ, List, Build, Run, done, panic, fault, hang, Result, ok, err, IoError, other, Option,
}
use xdp_rs.Socket.{TxSocket}
use xdp_rs.Socket.Kick.{Reply}
use xdp_rs.XdpTests.Machine.{
  Outside, Machine, App, ◌>>=◌, ◌>>◌, pure, finally, attach_pass_program, drop_program,
}
use xdp_rs.XdpTests.PingerMain.{run_pinger}
use xdp_rs.XdpTests.UdpPingpong.{UdpSocket, Sent, run_ponger}
use xdp_rs.XdpTests.Runner.{HostPair}

-- `pinger.await?`: what the task's result is, is only logged; a panic of the task is an error, and the
-- machine is then taken as it was before the task.
abbrev pub join_pinger : Run (Result (Unit {0}) IoError × Machine) → App (Unit {0})
join_pinger (done (r, m')) m = done (ok tt, m')
join_pinger panic m = done (err (other "task panicked"), m)
join_pinger fault m = fault
join_pinger hang m = hang

abbrev pub join_ponger : Run Sent → App (Unit {0})
join_ponger (done x) m = done (ok tt, m)
join_ponger panic m = done (err (other "task panicked"), m)
join_ponger fault m = fault
join_ponger hang m = hang

module _ (o : Outside) (sendto : ℕ → ℕ → Reply) (poll : ℕ → ℕ → Result ℕ ℕ)
    (meanwhile : ℕ → TxSocket → TxSocket) (b : Build) (fuel rounds waits : ℕ) (mem : ℕ → ℕ)
    (src_mac dst_mac : Option (List ℕ)) (udp : UdpSocket) where
  abbrev pub ping_pair : HostPair → Machine → Run (Result (Unit {0}) IoError × Machine)
  ping_pair pair m =
      run_pinger o sendto poll meanwhile b fuel rounds mem src_mac dst_mac pair.host0.ip_str 9000
        pair.host1.ip_str 9001 m

  abbrev pub join_both : HostPair → App (Unit {0})
  join_both pair = do
    (λ m. join_pinger (ping_pair pair m) m)
    join_ponger (run_ponger udp waits)
    pure tt

  -- The closure that `main` gives to `run_test_with_pair`.
  unfoldable pub pingpong : HostPair → App (Unit {0})
  pingpong pair = do
    prog ← attach_pass_program o pair.host1.if_index
    finally (drop_program o prog) (join_both pair)
