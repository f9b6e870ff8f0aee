-- ===== src/XdpTests/Tests/Worlds.antt =====
-- What the programs are run on.
use xdp_rs.Prelude.{
  ℕ, ◌+◌, ◌-◌, List, [], ◌∷◌, some, none, Result, ok, err, IoError, other, length, replicate, ◌==◌,
  if◌then◌else◌,
}
use xdp_rs.Router.{PrefixMap}
use xdp_rs.Netlink
use xdp_rs.Netlink.{Ipv4Route}
use xdp_rs.Netlink.Links.{v4}
use xdp_rs.Netlink.Query.{NetlinkSocket}
use xdp_rs.Netlink.Queries.{Message, new_address, new_neighbour}
use xdp_rs.Packet.Header.{Fields, Written}
use xdp_rs.XdpProg.{LibBpf}
use xdp_rs.MacByIfindex.{Device}
use xdp_rs.Create.Tests.Systems.{libc, kernel, info, start}
use xdp_rs.XdpTests.Machine.{Outside, Machine}

abbrev pub mac : ℕ → List ℕ
mac n = 2 ∷ 0 ∷ 0 ∷ 0 ∷ 0 ∷ n ∷ []

-- A builder that writes the MAC addresses, 30 zeros and the payload.
abbrev pub builder : Fields → List ℕ → Written
builder fields payload = record {
  chunks = mac 1 ∷ mac 2 ∷ replicate 30 0 ∷ payload ∷ [];
  result = ok tt;
}

-- Messages of one byte: the addresses 192.168.77.100 and 101, and a neighbour at 101.
abbrev deserialize : List ℕ → Result Message IoError
deserialize [] = err (other "empty")
deserialize (x ∷ xs) = ok (record {
  length = 1;
  payload =
      if x == 9
      then new_neighbour 2
          (Netlink.destination 0xc0a84d65 ∷ Netlink.link_local_address (mac 1) ∷ [])
      else new_address (x - 98) (v4 (0xc0a84d00 + x) ∷ []);
})

abbrev replying : NetlinkSocket
replying = record {
  new = ok tt;
  bind = ok tt;
  send = λ send_buf. ok (length send_buf);
  recv_from_full = ok (100 ∷ 101 ∷ 9 ∷ []);
}

abbrev no_prefixes : PrefixMap
no_prefixes = record {
  Net = ℕ;
  Map = Unit {0};
  host = λ ip. ip;
  net = λ ip prefix. some ip;
  empty = tt;
  insert = λ m n r. tt;
  get_lpm = λ m n. none;
}

abbrev bpf : LibBpf
bpf = record {
  bpf_object_open_mem = λ log code. 4096;
  bpf_object_load = λ log obj. 0;
  bpf_object_find_program_by_name = λ log obj name. 5000;
  bpf_program_attach_xdp = λ log prog if_index. 6000;
  bpf_xdp_query = λ if_index. ok 3;
}

abbrev device : Device
device = record {
  open_socket = λ log. ok 5;
  siocgifname = λ fd if_index. ok (101 ∷ 116 ∷ 104 ∷ 48 ∷ []);
  siocgifhwaddr = λ fd name. ok (2 ∷ 0 ∷ 0 ∷ 0 ∷ 0 ∷ 9 ∷ 0 ∷ 0 ∷ []);
  close_errno = λ log fd. none;
}

-- A system that grants its calls.
abbrev pub outside : Outside
outside = record {
  libc = libc;
  kernel = kernel;
  info = ok info;
  bpf = bpf;
  device = device;
  prefixes = no_prefixes;
  builder = builder;
  deserialize = deserialize;
  netlink_socket = λ n. replying;
  get_address = 1 ∷ [];
  get_route = 2 ∷ [];
  get_neighbour = 3 ∷ [];
  xdp_pass = 127 ∷ [];
}

-- One that opens no socket of the family AF_XDP.
abbrev pub unprivileged : Outside
unprivileged = record outside { kernel = record kernel { open_socket = λ log. err 1 } }

abbrev pub machine : Machine
machine = record { process = start; bpf_log = []; queries = 0 }
