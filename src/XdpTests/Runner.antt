-- ===== src/XdpTests/Runner.antt =====
-- xdp-tests/src/nettest/suite/runner.rs
use xdp_rs.Prelude.{
  ℕ, Bool, true, false, Option, none, some, List, ◌++◌, Run, done, panic, Result, ok, err, IoError,
  os, not_found, other, context, ◌==◌, if◌then◌else◌, ◌>>=◌,
}
use xdp_rs.Mmap.Meminfo.{Text}
use xdp_rs.XdpTests.Addresses.{parse_ipv4}
use xdp_rs.XdpTests.Command.{codes, Ran, Shell}
use xdp_rs.XdpTests.VethPair.{check_pair, setup_pair, teardown_pair}
use xdp_rs.XdpTests.Machine.{Outside, Machine, find_interface}

abbrev pub dev_prefix : Text
dev_prefix = codes "xdpVeth"

abbrev pub ip_prefix : Text
ip_prefix = codes "192.168.77."

pub record Host : Type 0 where
  pub if_dev : Text
  pub ip_str : Text
  pub ip_addr : ℕ
  pub if_index : ℕ

pub record HostPair : Type 0 where
  pub host0 : Host
  pub host1 : Host

-- The commands that were run, and the machine.
pub record Bench : Type 0 where
  pub log : List Ran
  pub machine : Machine

-- `e.kind() == ErrorKind::NotFound`; the error number is ENOENT.
abbrev pub is_not_found : IoError → Bool
is_not_found (os e) = e == 2
is_not_found (not_found message) = true
is_not_found (other message) = false
is_not_found (context message e) = false

module _ (o : Outside) where
  -- Both calls of `unwrap`.
  abbrev pub host_at : Text → Text → ℕ → Result ℕ IoError × Machine → Run (Host × Machine)
  host_at if_dev ip_str ip_addr (err e, m) = panic
  host_at if_dev ip_str ip_addr (ok if_index, m) =
      done (record { if_dev = if_dev; ip_str = ip_str; ip_addr = ip_addr; if_index = if_index }, m)

  abbrev pub host_with : Text → Text → Option ℕ → Machine → Run (Host × Machine)
  host_with if_dev ip_str none m = panic
  host_with if_dev ip_str (some ip_addr) m = do
    found ← find_interface o ip_addr m
    host_at if_dev ip_str ip_addr found

  -- `Host::new`
  unfoldable pub host_new : Text → Text → Machine → Run (Host × Machine)
  host_new if_dev ip_str m = host_with if_dev ip_str (parse_ipv4 ip_str) m

  -- `HostPair::from_prefixes`
  unfoldable pub from_prefixes : Text → Text → Machine → Run (HostPair × Machine)
  from_prefixes dev ip m = do
    h0 ← host_new (dev ++ codes "0") (ip ++ codes "100") m
    h1 ← host_new (dev ++ codes "1") (ip ++ codes "101") (h0.1)
    done (record { host0 = h0.0; host1 = h1.0 }, h1.1)

  abbrev pub Test : Type 0
  Test = HostPair → Machine → Run (Result (Unit {0}) IoError × Machine)

  module _ (sh : Shell) where
    -- The match on the error of `check_pair`.
    abbrev pub made : Result (Unit {0}) IoError × List Ran → Result (Unit {0}) IoError × List Ran
    made (ok _, log) = (ok tt, log)
    made (err e, log) =
        if is_not_found e then setup_pair sh dev_prefix ip_prefix log else (err e, log)

    abbrev pub torn_down :
        Machine → Result (Unit {0}) IoError × List Ran → Run (Result (Unit {0}) IoError × Bench)
    torn_down m (r, log) = done (r, record { log = log; machine = m })

    -- `test(host_pair).await?`, and the teardown.
    abbrev pub tested :
        List Ran → Result (Unit {0}) IoError × Machine → Run (Result (Unit {0}) IoError × Bench)
    tested log (err e, m) = done (err e, record { log = log; machine = m })
    tested log (ok _, m) = torn_down m (teardown_pair sh dev_prefix log)

    abbrev pub with_pair :
        Test
        → Machine
        → Result (Unit {0}) IoError × List Ran
        → Run (Result (Unit {0}) IoError × Bench)
    with_pair test m (err e, log) = done (err e, record { log = log; machine = m })
    with_pair test m (ok _, log) = do
      pair ← from_prefixes dev_prefix ip_prefix m
      result ← test (pair.0) (pair.1)
      tested log result

    unfoldable pub run_test_with_pair : Test → Bench → Run (Result (Unit {0}) IoError × Bench)
    run_test_with_pair test bench =
        with_pair test bench.machine (made (check_pair sh dev_prefix bench.log))
