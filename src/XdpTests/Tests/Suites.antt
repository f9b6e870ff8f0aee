-- ===== src/XdpTests/Tests/Suites.antt =====
-- The harness: setups, restarts and a test that passes.
use xdp_rs.Prelude.{
  ◌==◌, if◌then◌else◌, ℕ, zero, suc, ◌≡◌, refl, Bool, true, false, some, none, List, [], ◌∷◌,
  Result, ok, done, err, IoError, other, os,
}
use xdp_rs.Mmap.Meminfo.{Text}
use xdp_rs.XdpProg.{drop_prog, xdp_attach_program, open_mem, load, attach_xdp, destroy, close}
use xdp_rs.Create.{create_tx_socket, create_socket, open_socket}
use xdp_rs.Mmap.Owned.{release}
use xdp_rs.XdpTests.PingerMain.{run_pinger}
use xdp_rs.Netlink.{loop, neighbour, read_neighbour}
use xdp_rs.Netlink.Links.{ipv4_address, first_v4}
use xdp_rs.Netlink.Query.{netlink}
use xdp_rs.Netlink.Queries.{get_ipv4_address}
use xdp_rs.Create.Tests.Systems.{build}
use xdp_rs.XdpTests.Addresses.{parse_ipv4}
use xdp_rs.XdpTests.Command.{
  codes, Ran, Shell, Launch, Env, returned, replaced, execute_sudo_command, restart_with_caps,
}
use xdp_rs.XdpTests.Restart.{Restarted, restarts_once}
use xdp_rs.XdpTests.VethPair.{setup_pair, check_pair, teardown_pair, up_pair, set_ipv4_addr}
use xdp_rs.XdpTests.Machine.{Machine, find_interface, attach_pass_program}
use xdp_rs.XdpTests.Runner.{
  Bench, HostPair, dev_prefix, ip_prefix, run_test_with_pair, host_new, from_prefixes,
}
use xdp_rs.XdpTests.UdpPingpong.{UdpSocket, pong, ponger_loop, run_ponger}
use xdp_rs.XdpTests.Pingpong.{pingpong}
use xdp_rs.XdpTests.Passing.{AttachedAndFailed, passed-AttachedAndFailed}
use xdp_rs.XdpTests.Tests.Worlds.{mac, unprivileged, machine}
use xdp_rs.XdpTests.Tests.Programs.{idle, sendto, zeros, poll}

-- A shell where every command succeeds, but the address is in use; and the link is there once it was made.
abbrev is_made : List Ran → Bool
is_made [] = false
is_made (r ∷ log) = true

abbrev adds_link : List Ran → Bool
adds_link [] = true
adds_link (r ∷ log) = false

abbrev taken : Shell
taken = record {
  sudo = λ log command. ok (adds_link log);
  ip_link_show = λ log dev. ok (is_made log);
}

abbrev half : List Ran
half =
    record { command = codes "ip addr add 192.168.77.100/24 dev xdpVeth0"; success = false }
    ∷ record { command = codes "ip link add xdpVeth0 type veth peer xdpVeth1"; success = true }
    ∷ []

failed_setup :
    setup_pair taken dev_prefix ip_prefix [] ≡ (err (other "Command failed with status "), half)
unfolding setup_pair up_pair set_ipv4_addr execute_sudo_command
failed_setup = refl

abbrev granting : Launch
granting = record {
  permitted = ok [];
  effective = ok [];
  name = λ c. if c == 13 then codes "cap_net_raw" else codes "cap_net_admin";
  current_exe = ok (some (codes "/tmp/test"));
  execvp = none;
}

abbrev every : Shell
every = record { sudo = λ log command. ok true; ip_link_show = λ log dev. ok true }

abbrev first_env : Env
first_env = record { restarted = none; log = [] }

abbrev second_env : Env
second_env = record {
  restarted = some (codes "1");
  log =
      record { command = codes "setcap cap_net_raw,cap_net_admin+eip /tmp/test"; success = true }
      ∷ [];
}

restarted : restart_with_caps every granting (13 ∷ 12 ∷ []) first_env ≡ (replaced, second_env)
unfolding restart_with_caps execute_sudo_command
restarted = refl

restarts_once_example :
    Restarted granting (13 ∷ 12 ∷ []) first_env second_env
    × (restart_with_caps every granting (13 ∷ 12 ∷ []) second_env ≡ (returned (ok tt), second_env))
restarts_once_example =
    restarts_once every every granting granting (13 ∷ 12 ∷ []) [] [] first_env second_env restarted
      refl refl

abbrev reply : ℕ → Result (Text × ℕ) IoError
reply zero = err (os 11)
reply (suc i) = ok (codes "PING", 7)

-- The ponger waits through a time-out, and answers the ping.
abbrev udp : UdpSocket
udp = record {
  bind = ok tt;
  connect = ok tt;
  set_read_timeout = ok tt;
  send = λ t. ok tt;
  recv = ok pong;
  recv_from = reply;
  send_to = λ t peer. ok tt;
}

answers : run_ponger udp 2 ≡ done (ok tt, (pong, 7) ∷ [])
unfolding run_ponger ponger_loop
answers = refl

abbrev pair : HostPair
pair = record {
  host0 = record {
    if_dev = codes "xdpVeth0";
    ip_str = codes "192.168.77.100";
    ip_addr = 0xc0a84d64;
    if_index = 2;
  };
  host1 = record {
    if_dev = codes "xdpVeth1";
    ip_str = codes "192.168.77.101";
    ip_addr = 0xc0a84d65;
    if_index = 3;
  };
}

hosts :
    from_prefixes unprivileged dev_prefix ip_prefix machine
    ≡ done (pair, record machine { queries = 2 })
unfolding from_prefixes host_new parse_ipv4 find_interface get_ipv4_address netlink loop
    ipv4_address first_v4 neighbour read_neighbour
hosts = refl

-- The link is there, the pinger can make no socket, and the test passes.
abbrev after : Bench
after = record {
  log = record { command = codes "ip link del xdpVeth0"; success = true } ∷ [];
  machine = record {
    process = machine.process;
    bpf_log = close 4096 ∷ destroy 6000 ∷ attach_xdp 6000 3 ∷ load 4096 ∷ open_mem 4096 ∷ [];
    queries = 4;
  };
}

passes :
    run_test_with_pair unprivileged every
      (pingpong unprivileged sendto poll idle build 1 5000 2 zeros
        (some (mac 2))
        (some (mac 1))
        udp)
      (record { log = []; machine = machine })
    ≡ done (ok tt, after)
unfolding run_test_with_pair check_pair teardown_pair execute_sudo_command from_prefixes host_new
    parse_ipv4 find_interface get_ipv4_address netlink loop ipv4_address first_v4 neighbour
    read_neighbour pingpong attach_pass_program xdp_attach_program drop_prog run_ponger ponger_loop
    run_pinger create_tx_socket create_socket open_socket release
passes = refl

passed-AttachedAndFailed_example :
    (p : HostPair) × (m : Machine) × (from_prefixes unprivileged dev_prefix ip_prefix machine
      ≡ done (p, m))
    × AttachedAndFailed unprivileged sendto poll idle build 1 5000 2 zeros
        (some (mac 2))
        (some (mac 1))
        udp
        p
        m
passed-AttachedAndFailed_example =
    passed-AttachedAndFailed unprivileged sendto poll idle build 1 5000 2 zeros (some (mac 2))
      (some (mac 1)) udp every (record { log = []; machine = machine }) after passes
