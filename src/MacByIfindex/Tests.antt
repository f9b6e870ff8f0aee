-- ===== src/MacByIfindex/Tests.antt =====
-- An interface with an address, and a socket that is in use beside it.
use xdp_rs.Prelude.{◌≡◌, refl, [], ◌∷◌, ok, none}
use xdp_rs.System.{socket, close}
use xdp_rs.MacByIfindex.{Device, mac_by_ifindex}

abbrev device : Device
device = record {
  open_socket = λ log. ok 5;
  siocgifname = λ fd if_index. ok (101 ∷ 116 ∷ 104 ∷ 48 ∷ []);
  siocgifhwaddr = λ fd name. ok (2 ∷ 0 ∷ 0 ∷ 0 ∷ 0 ∷ 9 ∷ 0 ∷ 0 ∷ []);
  close_errno = λ log fd. none;
}

found : mac_by_ifindex device 2 [] ≡ (ok (2 ∷ 0 ∷ 0 ∷ 0 ∷ 0 ∷ 9 ∷ []), close 5 ∷ socket 5 ∷ [])
unfolding mac_by_ifindex
found = refl
