-- ===== src/XdpTests/SenderMain.antt =====
-- `main` of xdp-tests/examples/xdp_sender.rs.
use xdp_rs.Prelude.{ℕ, Option, none, some, List, Build, Run, done, Result, ok, err, IoError, other}
use xdp_rs.System.{after_run}
use xdp_rs.Mmap.Meminfo.{Text}
use xdp_rs.Socket.{TxSocket}
use xdp_rs.Socket.Kick.{Reply}
use xdp_rs.Packet.Header.{Fields}
use xdp_rs.Router
use xdp_rs.Router.{Router, NextHop, route}
use xdp_rs.Create.{create_tx_socket}
use xdp_rs.XdpTests.Addresses.{SocketAddr, parse_socket_addr}
use xdp_rs.XdpTests.Machine.{
  Outside, Machine, App, ◌>>=◌, pure, or_fail, map_err, finally, on_process, find_interface,
  refresh_router, attach_pass_program, drop_program, mac_of, drop_tx,
}
use xdp_rs.XdpTests.Sender.{Memory, Round, send_packets}

-- `Args`. What clap does with the command line is not modelled.
pub record Args : Type 0 where
  pub src : Text
  pub dst : Text
  pub text : List ℕ
  pub delay : Option Text
  pub count : ℕ

module _ (o : Outside) (sendto : ℕ → ℕ → Reply) (meanwhile : ℕ → TxSocket → TxSocket) (b : Build)
    (mem : Memory) (parse_duration : Text → Option ℕ) where
  -- `args.delay.as_ref().map_or(…)?`, of which only the failure is seen.
  abbrev pub checked_delay : Option Text → App ℕ
  checked_delay none = pure 1
  checked_delay (some x) = or_fail (other "Invalid delay format") (parse_duration x)

  -- The end of the loop, and the drop of the socket.
  abbrev pub sent : Machine → Round → Run (Result (Unit {0}) IoError × Machine)
  sent m (r, s, mem') = done (r, drop_tx o s m)

  abbrev pub fields_of : SocketAddr → SocketAddr → List ℕ → List ℕ → Fields
  fields_of src dst src_mac dst_mac = record {
    src_mac = src_mac;
    dst_mac = dst_mac;
    src_addr = src.ip;
    dst_addr = dst.ip;
    ttl = 64;
    src_port = src.port;
    dst_port = dst.port;
  }

  -- From the loop on, with what `mac_by_ifindex` comes to.
  abbrev pub send_from :
      Args
      → SocketAddr
      → SocketAddr
      → NextHop
      → TxSocket
      → Result (List ℕ) IoError × Machine
      → Run (Result (Unit {0}) IoError × Machine)
  send_from args src dst hop s (err e, m) = done (err e, drop_tx o s m)
  send_from args src dst hop s (ok src_mac, m) = after_run (sent m) (
      send_packets o.libc o.builder sendto meanwhile b (fields_of src dst src_mac) hop.mac_addr
        args.text args.count 0 s mem)

  abbrev pub send_with : ℕ → Args → SocketAddr → SocketAddr → NextHop → TxSocket → App (Unit {0})
  send_with if_index args src dst hop s m =
      after_run (send_from args src dst hop s) (mac_of o if_index m)

  -- With the program attached: from the router on.
  unfoldable pub with_program : ℕ → Args → SocketAddr → SocketAddr → App (Unit {0})
  with_program if_index args src dst = do
    router ← refresh_router o (Router.new o.prefixes if_index)
    hop ← or_fail (other "No route to destination IP") (route o.prefixes router dst.ip)
    s ←
        map_err "Failed to create XDP socket: "
          (on_process (create_tx_socket o.libc o.kernel o.info b if_index 0 none))
    send_with if_index args src dst hop s

  -- `main`, from the arguments on.
  unfoldable pub send_main : Args → App (Unit {0})
  send_main args = do
    delay ← checked_delay args.delay
    src ← or_fail (other "Invalid source address format") (parse_socket_addr args.src)
    dst ← or_fail (other "Invalid source address format") (parse_socket_addr args.dst)
    if_index ← find_interface o src.ip
    prog ← attach_pass_program o if_index
    finally (drop_program o prog) (with_program if_index args src dst)
