-- ===== src/XdpTests/Tests/Programs.antt =====
-- The example and the pinger.
use xdp_rs.Prelude.{ℕ, ◌≡◌, refl, arith, some, none, List, [], Result, ok}
use xdp_rs.Socket.{TxSocket}
use xdp_rs.Socket.Kick.{Reply}
use xdp_rs.Socket.Ownership.Window.{window}
use xdp_rs.Socket.Ownership.Steps.{World, IsOwned}
use xdp_rs.Socket.Ownership.Start.{first_frames}
use xdp_rs.Socket.Tests.Sockets.{tx_socket, tx_socket-IsTx}
use xdp_rs.Create.Dropped.{owns}
use xdp_rs.Create.Tests.Systems.{build, libc}
use xdp_rs.Packet.Header.{Fields}
use xdp_rs.XdpTests.Command.{codes}
use xdp_rs.XdpTests.Addresses.{parse_ipv4, parse_socket_addr}
use xdp_rs.XdpTests.Sender.{Memory, send_packet}
use xdp_rs.XdpTests.SenderMain.{Args}
use xdp_rs.XdpTests.Delivery.{Delivered, send_packet_lem}
use xdp_rs.XdpTests.Tests.Worlds.{mac, builder}

parsed :
    parse_socket_addr (codes "192.168.77.100:9000") ≡ some (record { ip = 0xc0a84d64; port = 9000 })
unfolding parse_socket_addr
parsed = refl

leading_zero : parse_ipv4 (codes "192.168.077.1") ≡ none
unfolding parse_ipv4
leading_zero = refl

abbrev pub idle : ℕ → TxSocket → TxSocket
idle i s = s

abbrev pub sendto : ℕ → ℕ → Reply
sendto i fd = ok tt

abbrev fields : List ℕ → Fields
fields dst_mac = record {
  src_mac = mac 2;
  dst_mac = dst_mac;
  src_addr = 0xc0a84d64;
  dst_addr = 0xc0a84d65;
  ttl = 64;
  src_port = 9000;
  dst_port = 9001;
}

abbrev pub zeros : Memory
zeros i = 0

abbrev text : List ℕ
text = codes "hello"

abbrev free : World
free = record { socket = tx_socket; held = [] }

free-IsOwned : IsOwned 1 (first_frames 2) free
unfolding window
free-IsOwned = record {
  valid = tx_socket-IsTx;
  word = omega arith;
  balance = refl;
  conserved = λ a. omega arith;
}

send_packet_lem_example :
    Delivered 1 2 []
      (owns tx_socket)
      zeros
      (send_packet libc builder sendto idle build fields (some (mac 1)) text 0 tx_socket zeros)
send_packet_lem_example =
    send_packet_lem libc builder sendto idle build fields (mac 1) text 1 2 (omega arith) refl
      (omega arith) 0 free zeros free-IsOwned

abbrev args : Args
args = record {
  src = codes "192.168.77.100:9000";
  dst = codes "192.168.77.101:9001";
  text = text;
  delay = none;
  count = 2;
}

abbrev pub poll : ℕ → ℕ → Result ℕ ℕ
poll i j = ok libc.pollout
