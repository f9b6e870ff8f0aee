-- ===== src/XdpTests/PingerMain.antt =====
-- `run_pinger` of xdp-tests/src/toolkit/xdp_pinger.rs.
use xdp_rs.Prelude.{
  ℕ, Option, none, some, List, Build, Run, done, panic, Result, ok, err, IoError, other, ◌==◌,
  if◌then◌else◌,
}
use xdp_rs.System.{after_run}
use xdp_rs.Mmap.Meminfo.{Text}
use xdp_rs.Socket.{TxSocket}
use xdp_rs.Socket.Kick.{Reply}
use xdp_rs.Packet.Header.{write_udp_header_for}
use xdp_rs.Netlink.{Neighbor}
use xdp_rs.Netlink.Queries.{get_ipv4_address}
use xdp_rs.Router
use xdp_rs.Router.{Router, NextHop, route}
use xdp_rs.Create.{create_tx_socket}
use xdp_rs.XdpTests.Addresses.{parse_ipv4}
use xdp_rs.XdpTests.Machine.{
  Outside, Machine, App, ◌>>=◌, or_fail, map_err, on_process, netlink_query, find_interface,
  refresh_router, drop_tx,
}
use xdp_rs.XdpTests.Pinger.{ping, Pinged, ping_loop}

-- The addresses of a ping, and the interface.
pub record Ends : Type 0 where
  pub if_index : ℕ
  pub src_addr : ℕ
  pub src_mac : List ℕ
  pub src_port : ℕ
  pub dst_addr : ℕ
  pub dst_mac : List ℕ
  pub dst_port : ℕ

-- `src_mac` and `dst_mac` are what the crate eui48 makes of the two addresses in the code.
module _ (o : Outside) (sendto : ℕ → ℕ → Reply) (poll : ℕ → ℕ → Result ℕ ℕ)
    (meanwhile : ℕ → TxSocket → TxSocket) (b : Build) (fuel rounds : ℕ) (mem : ℕ → ℕ)
    (src_mac dst_mac : Option (List ℕ)) where
  -- `router.neighbors.insert(…)`
  abbrev pub insert_neighbor : Router o.prefixes → Neighbor → Router o.prefixes
  insert_neighbor r n = record r { neighbors = λ ip. if ip == n.ip then some n else r.neighbors ip }

  -- The end of the loop, and the drop of the socket.
  abbrev pub pinged : Machine → Pinged → Run (Result (Unit {0}) IoError × Machine)
  pinged m (r, i, s, mem') = done (r, drop_tx o s m)

  -- The loop, with the header.
  abbrev pub ping_with :
      TxSocket → Machine → Result (List ℕ) IoError → Run (Result (Unit {0}) IoError × Machine)
  ping_with s m (err e) = done (err e, drop_tx o s m)
  ping_with s m (ok header) =
      after_run (pinged m) (ping_loop o.libc sendto poll meanwhile b fuel header rounds 0 s mem)

  abbrev pub with_mac : TxSocket → Ends → Option (List ℕ) → App (Unit {0})
  with_mac s ends none m = panic
  with_mac s ends (some mac) m = after_run (ping_with s m) (
      write_udp_header_for o.builder b ping ends.src_addr ends.src_mac ends.src_port ends.dst_addr
        mac ends.dst_port)

  -- From the route on, with the socket in hand.
  abbrev pub with_hop : TxSocket → Ends → Option NextHop → App (Unit {0})
  with_hop s ends none m = done (err (other "No route to destination IP"), drop_tx o s m)
  with_hop s ends (some hop) m = with_mac s ends hop.mac_addr m

  abbrev pub with_router :
      TxSocket
      → Ends
      → Result (Router o.prefixes) IoError × Machine
      → Run (Result (Unit {0}) IoError × Machine)
  with_router s ends (err e, m) = done (err e, drop_tx o s m)
  with_router s ends (ok router, m) =
      with_hop s ends
        (route o.prefixes
          (insert_neighbor router
            (record { ip = ends.dst_addr; mac = ends.dst_mac; if_index = ends.if_index }))
          ends.dst_addr)
        m

  abbrev pub ping_from : Ends → TxSocket → App (Unit {0})
  ping_from ends s m = after_run (with_router s ends) (
      map_err "Failed to refresh router: " (refresh_router o (Router.new o.prefixes ends.if_index))
        m)

  unfoldable pub run_pinger : Text → ℕ → Text → ℕ → App (Unit {0})
  run_pinger src_ip src_port dst_ip dst_port = do
    src_addr ← or_fail (other "invalid IP address: ") (parse_ipv4 src_ip)
    dst_addr ← or_fail (other "invalid IP address: ") (parse_ipv4 dst_ip)
    shown ←
        map_err "Failed to get IP address: "
          (netlink_query o (λ s. get_ipv4_address o.deserialize s o.get_address none))
    if_index ← find_interface o src_addr
    mac ← or_fail (other "invalid MAC address: ") src_mac
    mac' ← or_fail (other "invalid MAC address: ") dst_mac
    s ←
        map_err "Failed to create XDP socket: "
          (on_process (create_tx_socket o.libc o.kernel o.info b if_index 0 none))
    ping_from
        (record {
          if_index = if_index;
          src_addr = src_addr;
          src_mac = mac;
          src_port = src_port;
          dst_addr = dst_addr;
          dst_mac = mac';
          dst_port = dst_port;
        })
        s
