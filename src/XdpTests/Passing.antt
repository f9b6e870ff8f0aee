-- ===== src/XdpTests/Passing.antt =====
-- What a test that passes says.
use xdp_rs.Prelude.{
  ℕ, ◌≡◌, refl, ap, ◌∙◌, List, Option, Build, Run, done, panic, fault, hang, Result, ok, err,
  IoError, >>=-eq-done, done-injective,
}
use xdp_rs.Socket.{TxSocket}
use xdp_rs.Socket.Kick.{Reply}
use xdp_rs.System
use xdp_rs.XdpProg.{OwnedXdpProg}
use xdp_rs.XdpTests.Command.{Ran, Shell}
use xdp_rs.XdpTests.VethPair.{check_pair}
use xdp_rs.XdpTests.Machine.{
  Outside, Machine, App, ◌>>◌, pure, then_app, finally, attach_pass_program, drop_program,
}
use xdp_rs.XdpTests.PingFails.{run_pinger-ne-ok}
use xdp_rs.XdpTests.UdpPingpong.{UdpSocket, run_ponger}
use xdp_rs.XdpTests.Runner.{
  HostPair, Bench, made, tested, with_pair, run_test_with_pair, from_prefixes, dev_prefix,
  ip_prefix,
}
use xdp_rs.XdpTests.Pingpong.{join_pinger, join_ponger, ping_pair, join_both, pingpong}

after_run-eq-done :
    {X Y : Type 0} (f : X → Run Y) (x : Run X) (y : Y)
    → System.after_run f x ≡ done y
    → (a : X) × (x ≡ done a) × (f a ≡ done y)
after_run-eq-done f (done a) y e = (a, refl, e)
after_run-eq-done f panic y e = cc
after_run-eq-done f fault y e = cc
after_run-eq-done f hang y e = cc

-- A computation that ends well has passed its first part, and its drop.
then_app-eq-ok :
    {A B : Type 0} (f : A → App B) (r : Result A IoError × Machine) (b : B) (m : Machine)
    → then_app f r ≡ done (ok b, m)
    → (a : A) × (m' : Machine) × (r ≡ (ok a, m')) × (f a m' ≡ done (ok b, m))
then_app-eq-ok f (ok a, m') b m e = (a, m', refl, e)
then_app-eq-ok f (err x, m') b m e = cc

module _ (o : Outside) (sendto : ℕ → ℕ → Reply) (poll : ℕ → ℕ → Result ℕ ℕ)
    (meanwhile : ℕ → TxSocket → TxSocket) (b : Build) (fuel rounds waits : ℕ) (mem : ℕ → ℕ)
    (src_mac dst_mac : Option (List ℕ)) (udp : UdpSocket) where
  -- The pinger that ran on a pair of hosts has returned an error.
  abbrev PingFailed : HostPair → Machine → Type 0
  PingFailed pair m =
      (e : IoError) × (m' : Machine) × (ping_pair o sendto poll meanwhile b fuel rounds waits mem
          src_mac dst_mac udp pair m
        ≡ done (err e, m'))

  -- The program was attached on the second host, and then the pinger has returned an error.
  abbrev pub AttachedAndFailed : HostPair → Machine → Type 0
  AttachedAndFailed pair m =
      (prog : OwnedXdpProg) × (m' : Machine) × (attach_pass_program o pair.host1.if_index m
        ≡ done (ok prog, m'))
      × PingFailed pair m'

  join_both-PingFailed :
      (pair : HostPair) (m m' : Machine)
      → join_both o sendto poll meanwhile b fuel rounds waits mem src_mac dst_mac udp pair m
        ≡ done (ok tt, m')
      → PingFailed pair m
  join_both-PingFailed pair m m' ran =
      go (ping_pair o sendto poll meanwhile b fuel rounds waits mem src_mac dst_mac udp pair m) refl
        ran
    where
      go :
          (x : Run (Result (Unit {0}) IoError × Machine))
          → ping_pair o sendto poll meanwhile b fuel rounds waits mem src_mac dst_mac udp pair m ≡ x
          → System.after_run
              (then_app (λ (u : Unit {0}). join_ponger (run_ponger udp waits) >> pure tt))
              (join_pinger x m)
            ≡ done (ok tt, m')
          → PingFailed pair m
      go (done (ok x, m1)) is e = absurd (
          run_pinger-ne-ok o sendto poll meanwhile b fuel rounds mem src_mac dst_mac
            pair.host0.ip_str pair.host1.ip_str 9000 9001 m m1 is)
      go (done (err x, m1)) is e = (x, m1, is)
      go panic is e = cc
      go fault is e = cc
      go hang is e = cc

  pingpong-AttachedAndFailed :
      (pair : HostPair) (m m' : Machine)
      → pingpong o sendto poll meanwhile b fuel rounds waits mem src_mac dst_mac udp pair m
        ≡ done (ok tt, m')
      → AttachedAndFailed pair m
  unfolding pingpong
  pingpong-AttachedAndFailed pair m m' ran =
      let both =
        join_both o sendto poll meanwhile b fuel rounds waits mem src_mac dst_mac udp pair in
      let body : OwnedXdpProg → App (Unit {0}) = λ prog. finally (drop_program o prog) both in
      let first =
        after_run-eq-done (then_app body) (attach_pass_program o pair.host1.if_index m) (ok tt, m')
          ran in
      let second = then_app-eq-ok body (first.0) tt m' (first.2) in
      let third =
        after_run-eq-done (λ r. done (r.0, drop_program o second.0 (r.1))) (both second.1)
          (ok tt, m') (second.3) in
      let passed : third.0.0 ≡ ok tt = ap (λ z. z.0) (done-injective (third.2)) in
      (
        second.0,
        second.1,
        first.1 ∙ ap done (second.2),
        join_both-PingFailed pair (second.1) (third.0.1)
            (third.1 ∙ ap (λ r. done (r, third.0.1)) passed),
      )

  test_passed :
      (sh : Shell) (log : List Ran) (r : Result (Unit {0}) IoError × Machine) (bench : Bench)
      → tested o sh log r ≡ done (ok tt, bench)
      → (m : Machine) × (r ≡ (ok tt, m))
  test_passed sh log (err e, m) bench ran = cc
  test_passed sh log (ok _, m) bench ran = (m, refl)

  with_pair-AttachedAndFailed :
      (sh : Shell) (m : Machine) (r : Result (Unit {0}) IoError × List Ran) (bench : Bench)
      → with_pair o sh
          (pingpong o sendto poll meanwhile b fuel rounds waits mem src_mac dst_mac udp)
          m
          r
        ≡ done (ok tt, bench)
      → (pair : HostPair) × (m' : Machine) × (from_prefixes o dev_prefix ip_prefix m
          ≡ done (pair, m'))
        × AttachedAndFailed pair m'
  with_pair-AttachedAndFailed sh m (err e, log) bench ran = cc
  with_pair-AttachedAndFailed sh m (ok _, log) bench ran =
      let test = pingpong o sendto poll meanwhile b fuel rounds waits mem src_mac dst_mac udp in
      let hosts = >>=-eq-done (from_prefixes o dev_prefix ip_prefix m) _ ran in
      let result = >>=-eq-done (test (hosts.0.0) (hosts.0.1)) (tested o sh log) (hosts.2) in
      let passed = test_passed sh log (result.0) bench (result.2) in
      (
        hosts.0.0,
        hosts.0.1,
        hosts.1,
        pingpong-AttachedAndFailed (hosts.0.0) (hosts.0.1) (passed.0) (result.1 ∙ ap done passed.1),
      )

  -- If the test passes, then its pinger has returned an error: whatever the system, the network, the shell
  -- and the other crates reply, and in any build, where `run_test_with_pair` with the closure of `main`
  -- returns `Ok`, it has found the pair of hosts and attached the program on the second, and `run_pinger`
  -- from the first to the second has then returned an error.
  pub passed-AttachedAndFailed :
      (sh : Shell) (bench bench' : Bench)
      → run_test_with_pair o sh
          (pingpong o sendto poll meanwhile b fuel rounds waits mem src_mac dst_mac udp)
          bench
        ≡ done (ok tt, bench')
      → (pair : HostPair) × (m : Machine) × (from_prefixes o dev_prefix ip_prefix bench.machine
          ≡ done (pair, m))
        × AttachedAndFailed pair m
  unfolding run_test_with_pair
  passed-AttachedAndFailed sh bench bench' ran =
      with_pair-AttachedAndFailed sh bench.machine (made o sh (check_pair sh dev_prefix bench.log))
        bench' ran
