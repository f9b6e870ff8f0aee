-- ===== src/XdpTests/Released.antt =====
-- The example xdp_sender as a whole: it ends, and gives back what it took.
use xdp_rs.Prelude.{ℕ, ◌+◌, ◌^◌, ◌≤◌, ◌<◌, ◌≡◌, Bool, true, Option, none, Build, ok, other, length}
use xdp_rs.Mmap.{use_huge}
use xdp_rs.Mmap.Meminfo.{Text}
use xdp_rs.Ring.Const
use xdp_rs.Socket.{TxSocket}
use xdp_rs.Socket.Kick.{Reply}
use xdp_rs.Router
use xdp_rs.Router.{Router}
use xdp_rs.Create.Honest.{Grants, IsNumbered}
use xdp_rs.Create.Balance.{IsSane}
use xdp_rs.XdpTests.Addresses.{SocketAddr, parse_socket_addr}
use xdp_rs.XdpTests.Machine.{
  Outside, Machine, App, ◌>>=◌, or_fail, finally, find_interface, attach_pass_program, drop_program,
}
use xdp_rs.XdpTests.Meanwhile.{OnlyCompletes}
use xdp_rs.XdpTests.Sender.{Memory}
use xdp_rs.XdpTests.SenderMain.{Args, with_program}

module _ (o : Outside) (sendto : ℕ → ℕ → Reply) (meanwhile : ℕ → TxSocket → TxSocket) (b : Build)
    (mem : Memory) (parse_duration : Text → Option ℕ) (q : ℕ) (huge : Bool)
    (grants : Grants o.libc o.kernel) (numbered : IsNumbered o.libc) (sane : IsSane o.libc o.kernel)
    (page : o.kernel.page_size ≡ 2 ^ q) (small : q ≤ 30) (settled : use_huge none o.info ≡ ok huge)
    (checks : b.checks ≡ true) (honest : OnlyCompletes 12 meanwhile) (args : Args)
    (short : 42 + length args.text < Const.frame_size) where
  -- The rest of `main`, from each of its steps on.
  abbrev from_program : SocketAddr → SocketAddr → ℕ → App (Unit {0})
  from_program src dst if_index = do
    prog ← attach_pass_program o if_index
    finally (drop_program o prog)
        (with_program o sendto meanwhile b mem parse_duration if_index args src dst)

  abbrev from_interface : SocketAddr → SocketAddr → App (Unit {0})
  from_interface src dst = find_interface o src.ip >>= from_program src dst

  abbrev from_dst : SocketAddr → App (Unit {0})
  from_dst src =
      or_fail (other "Invalid source address format") (parse_socket_addr args.dst)
      >>= from_interface src

  abbrev from_src : App (Unit {0})
  from_src =
      or_fail (other "Invalid source address format") (parse_socket_addr args.src) >>= from_dst
