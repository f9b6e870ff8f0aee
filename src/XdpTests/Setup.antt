-- ===== src/XdpTests/Setup.antt =====
-- The commands that set a veth pair up.
use xdp_rs.Prelude.{◌≡◌, refl, true, List, [], ◌∷◌, ◌++◌, Result, ok, err, IoError}
use xdp_rs.Mmap.Meminfo.{Text}
use xdp_rs.XdpTests.Command.{codes, Ran, Shell, Script, execute_sudo_command, then_script}
use xdp_rs.XdpTests.VethPair.{
  add_link, link_up, add_addr, link_promisc, up_if_dev, set_ipv4_addr, set_promisc_mode, up_pair,
  setup_pair,
}

-- The commands of a list, one after another, up to the first that does not succeed.
pub run_each : Shell → List Text → Script (Unit {0})
run_each sh [] log = (ok tt, log)
run_each sh (c ∷ cs) log = then_script (λ _. run_each sh cs) (execute_sudo_command sh c log)

script_end :
    (r : Result (Unit {0}) IoError × List Ran)
    → then_script (λ (u : Unit {0}) log. (ok tt, log)) r ≡ r
script_end (ok tt, log) = refl
script_end (err e, log) = refl

abbrev pub commands : Text → Text → List Text
commands dev_prefix ip_prefix =
    let dev0 = dev_prefix ++ codes "0" in
    let dev1 = dev_prefix ++ codes "1" in
    add_link dev_prefix
    ∷ add_addr dev0 (ip_prefix ++ codes "100")
    ∷ link_promisc dev0 true
    ∷ link_up dev0
    ∷ add_addr dev1 (ip_prefix ++ codes "101")
    ∷ link_promisc dev1 true
    ∷ link_up dev1
    ∷ []

-- `setup_pair` runs seven commands, each of which waits for the success of the one before: the link is
-- made, and each end gets its address, is set promiscuous, and is brought up. The first command that does
-- not succeed ends it with that command's error.
pub setup_pair_lem :
    (sh : Shell) (dev_prefix ip_prefix : Text) (log : List Ran)
    → setup_pair sh dev_prefix ip_prefix log ≡ run_each sh (commands dev_prefix ip_prefix) log
unfolding setup_pair up_pair set_ipv4_addr set_promisc_mode up_if_dev run_each
setup_pair_lem sh dev_prefix ip_prefix log = simp script_end
