-- ===== src/XdpTests/VethPair.antt =====
-- xdp-tests/src/nettest/suite/vethpair.rs
use xdp_rs.Prelude.{
  Bool, true, false, List, ◌++◌, Result, ok, err, IoError, not_found, if◌then◌else◌,
}
use xdp_rs.Mmap.Meminfo.{Text}
use xdp_rs.XdpTests.Command.{codes, Ran, Shell, Script, ◌>>◌, execute_sudo_command}

-- The commands, as `format!` makes them.
abbrev pub add_link : Text → Text
add_link dev_prefix =
    codes "ip link add " ++ dev_prefix ++ codes "0 type veth peer " ++ dev_prefix ++ codes "1"

abbrev pub del_link : Text → Text
del_link prefix = codes "ip link del " ++ prefix ++ codes "0"

abbrev pub link_up : Text → Text
link_up dev = codes "ip link set " ++ dev ++ codes " up"

abbrev pub add_addr : Text → Text → Text
add_addr dev addr = codes "ip addr add " ++ addr ++ codes "/24 dev " ++ dev

abbrev pub link_promisc : Text → Bool → Text
link_promisc dev enable =
    codes "ip link set " ++ dev ++ codes " promisc " ++ (if enable then codes "on" else codes "off")

module _ (sh : Shell) where
  unfoldable pub up_if_dev : Text → Script (Unit {0})
  up_if_dev dev = execute_sudo_command sh (link_up dev)

  unfoldable pub set_ipv4_addr : Text → Text → Script (Unit {0})
  set_ipv4_addr dev addr = execute_sudo_command sh (add_addr dev addr)

  unfoldable pub set_promisc_mode : Text → Bool → Script (Unit {0})
  set_promisc_mode dev enable = execute_sudo_command sh (link_promisc dev enable)

  unfoldable pub up_pair : Text → Text → Script (Unit {0})
  up_pair dev_prefix ip_prefix = do
    set_ipv4_addr (dev_prefix ++ codes "0") (ip_prefix ++ codes "100")
    set_promisc_mode (dev_prefix ++ codes "0") true
    up_if_dev (dev_prefix ++ codes "0")
    set_ipv4_addr (dev_prefix ++ codes "1") (ip_prefix ++ codes "101")
    set_promisc_mode (dev_prefix ++ codes "1") true
    up_if_dev (dev_prefix ++ codes "1")

  unfoldable pub setup_pair : Text → Text → Script (Unit {0})
  setup_pair dev_prefix ip_prefix = do
    execute_sudo_command sh (add_link dev_prefix)
    up_pair dev_prefix ip_prefix

  unfoldable pub teardown_pair : Text → Script (Unit {0})
  teardown_pair prefix = execute_sudo_command sh (del_link prefix)

  abbrev pub shown : List Ran → Result Bool IoError → Result (Unit {0}) IoError × List Ran
  shown log (err e) = (err e, log)
  shown log (ok true) = (ok tt, log)
  shown log (ok false) = (err (not_found "Pair does not exist"), log)

  unfoldable pub check_pair : Text → Script (Unit {0})
  check_pair prefix log = shown log (sh.ip_link_show log (prefix ++ codes "0"))
