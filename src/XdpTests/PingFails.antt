-- ===== src/XdpTests/PingFails.antt =====
-- `run_pinger` as a whole: it never succeeds, and on a working system it comes to an end.
use xdp_rs.Prelude.{
  ℕ, ◌≢◌, refl, Option, none, some, List, Build, Run, done, panic, fault, hang, Result, ok, err,
  IoError, other,
}
use xdp_rs.Mmap.Meminfo.{Text}
use xdp_rs.Socket.{TxSocket}
use xdp_rs.Socket.Kick.{Reply}
use xdp_rs.System
use xdp_rs.Packet.Header.{write_udp_header_for}
use xdp_rs.Netlink.Queries.{get_ipv4_address}
use xdp_rs.Router
use xdp_rs.Router.{Router, NextHop, route}
use xdp_rs.Create.{create_tx_socket}
use xdp_rs.XdpTests.Addresses.{parse_ipv4}
use xdp_rs.XdpTests.Machine.{
  Outside, Machine, App, ◌>>=◌, or_fail, map_err, on_process, netlink_query, find_interface,
  refresh_router, then_app,
}
use xdp_rs.XdpTests.Pinger.{ping, Pinged, ping_loop}
use xdp_rs.XdpTests.PingerMain.{
  Ends, pinged, ping_with, with_mac, with_hop, with_router, ping_from, run_pinger,
}
use xdp_rs.XdpTests.Pinging.{ping_loop-ne-ok}

abbrev NeverOk : Run (Result (Unit {0}) IoError × Machine) → Type 0
NeverOk x = (m : Machine) → x ≢ done (ok tt, m)

after_run-NeverOk :
    {X : Type 0} (r : Run X) (f : X → Run (Result (Unit {0}) IoError × Machine))
    → ((x : X) → NeverOk (f x))
    → NeverOk (System.after_run f r)
after_run-NeverOk (done x) f never m h = never x m h
after_run-NeverOk panic f never m h = cc
after_run-NeverOk fault f never m h = cc
after_run-NeverOk hang f never m h = cc

record Fails (x : App (Unit {0})) : Type 0 where
  never : (m : Machine) → NeverOk (x m)

then_app-NeverOk :
    {A : Type 0} (f : A → App (Unit {0})) (r : Result A IoError × Machine)
    → ((a : A) → Fails (f a))
    → NeverOk (then_app f r)
then_app-NeverOk f (ok a, u) rest = (rest a).never u
then_app-NeverOk f (err e, u) rest = λ m' h. cc

Fails-bind :
    {A : Type 0} (x : App A) {f : A → App (Unit {0})} → ((a : A) → Fails (f a)) → Fails (x >>= f)
Fails-bind {A} x {f} rest = record {
  never = λ m. after_run-NeverOk (x m) (then_app f) (λ r. then_app-NeverOk f r rest);
}

module _ (o : Outside) (sendto : ℕ → ℕ → Reply) (poll : ℕ → ℕ → Result ℕ ℕ)
    (meanwhile : ℕ → TxSocket → TxSocket) (b : Build) (fuel rounds : ℕ) (mem : ℕ → ℕ)
    (src_mac dst_mac : Option (List ℕ)) where
  ping_with-NeverOk :
      (s : TxSocket) (m : Machine) (r : Result (List ℕ) IoError)
      → NeverOk (ping_with o sendto poll meanwhile b fuel rounds mem src_mac dst_mac s m r)
  ping_with-NeverOk s m (err e) m' h = cc
  ping_with-NeverOk s m (ok header) m' h =
      looped (ping_loop o.libc sendto poll meanwhile b fuel header rounds 0 s mem)
        (λ j s' mem'.
          ping_loop-ne-ok o.libc sendto poll meanwhile b fuel header rounds 0 j s s' mem mem')
        h
    where
      looped :
          (r : Run Pinged)
          → ((j : ℕ) (s' : TxSocket) (mem' : ℕ → ℕ) → r ≢ done (ok tt, j, s', mem'))
          → System.after_run (pinged o sendto poll meanwhile b fuel rounds mem src_mac dst_mac m) r
            ≢ done (ok tt, m')
      looped (done (ok x, j, s', mem')) never e = never j s' mem' refl
      looped (done (err x, j, s', mem')) never e = cc
      looped panic never e = cc
      looped fault never e = cc
      looped hang never e = cc

  with_mac-NeverOk :
      (s : TxSocket) (ends : Ends) (mac : Option (List ℕ)) (m : Machine)
      → NeverOk (with_mac o sendto poll meanwhile b fuel rounds mem src_mac dst_mac s ends mac m)
  with_mac-NeverOk s ends none m = λ m' h. cc
  with_mac-NeverOk s ends (some mac) m =
      after_run-NeverOk
        (write_udp_header_for o.builder b ping ends.src_addr ends.src_mac ends.src_port
          ends.dst_addr mac ends.dst_port)
        (ping_with o sendto poll meanwhile b fuel rounds mem src_mac dst_mac s m)
        (ping_with-NeverOk s m)

  with_hop-NeverOk :
      (s : TxSocket) (ends : Ends) (hop : Option NextHop) (m : Machine)
      → NeverOk (with_hop o sendto poll meanwhile b fuel rounds mem src_mac dst_mac s ends hop m)
  with_hop-NeverOk s ends none m = λ m' h. cc
  with_hop-NeverOk s ends (some hop) m = with_mac-NeverOk s ends hop.mac_addr m

  with_router-NeverOk :
      (s : TxSocket) (ends : Ends) (r : Result (Router o.prefixes) IoError × Machine)
      → NeverOk (with_router o sendto poll meanwhile b fuel rounds mem src_mac dst_mac s ends r)
  with_router-NeverOk s ends (err e, m) = λ m' h. cc
  with_router-NeverOk s ends (ok router, m) = with_hop-NeverOk s ends _ m

  ping_from-Fails :
      (ends : Ends) (s : TxSocket)
      → Fails (ping_from o sendto poll meanwhile b fuel rounds mem src_mac dst_mac ends s)
  ping_from-Fails ends s = record {
    never = λ m.
        after_run-NeverOk
          (map_err "Failed to refresh router: "
            (refresh_router o (Router.new o.prefixes ends.if_index)) m)
          (with_router o sendto poll meanwhile b fuel rounds mem src_mac dst_mac s ends)
          (with_router-NeverOk s ends);
  }

  run_pinger-Fails :
      (src_ip dst_ip : Text) (src_port dst_port : ℕ)
      → Fails (
          run_pinger o sendto poll meanwhile b fuel rounds mem src_mac dst_mac src_ip src_port
            dst_ip dst_port)
  unfolding run_pinger
  run_pinger-Fails src_ip dst_ip src_port dst_port =
      Fails-bind (or_fail (other "invalid IP address: ") (parse_ipv4 src_ip)) λ src_addr.
        Fails-bind (or_fail (other "invalid IP address: ") (parse_ipv4 dst_ip)) λ dst_addr.
          Fails-bind
            (map_err "Failed to get IP address: "
              (netlink_query o (λ s. get_ipv4_address o.deserialize s o.get_address none)))
            λ shown. Fails-bind (find_interface o src_addr) λ if_index.
              Fails-bind (or_fail (other "invalid MAC address: ") src_mac) λ mac.
                Fails-bind (or_fail (other "invalid MAC address: ") dst_mac) λ mac'.
                  Fails-bind
                    (map_err "Failed to create XDP socket: "
                      (on_process (create_tx_socket o.libc o.kernel o.info b if_index 0 none)))
                    λ s. ping_from-Fails _ s

  -- `run_pinger` never returns `Ok`, in any build, on any input, and whatever the system, the network
  -- and the other crates reply: it returns an error, panics, or does not return.
  pub run_pinger-ne-ok :
      (src_ip dst_ip : Text) (src_port dst_port : ℕ) (m m' : Machine)
      → run_pinger o sendto poll meanwhile b fuel rounds mem src_mac dst_mac src_ip src_port dst_ip
          dst_port m
        ≢ done (ok tt, m')
  run_pinger-ne-ok src_ip dst_ip src_port dst_port m m' =
      (run_pinger-Fails src_ip dst_ip src_port dst_port).never m m'
