-- ===== src/XdpTests/Machine.antt =====
-- What the programs of xdp-tests run on, and computations over it that may fail.
use Prim.Native.String.{String}
use xdp_rs.Prelude.{
  ℕ, ◌+◌, true, Option, none, some, List, [], ◌∷◌, Run, done, Result, ok, err, IoError, other, ◌==◌,
  if◌then◌else◌,
}
use xdp_rs.Libc.{Libc}
use xdp_rs.Mmap.{HugePageInfo}
use xdp_rs.System
use xdp_rs.System.{Kernel, Process, Resource, descriptor, Sys}
use xdp_rs.Packet.Header.{Fields, Written}
use xdp_rs.Netlink.Query.{NetlinkSocket}
use xdp_rs.Netlink.Queries.{Message, get_ipv4_address, get_ipv4_routes, get_neighbors}
use xdp_rs.Router.{PrefixMap, Router, refresh}
use xdp_rs.XdpProg.{LibBpf, BpfCall, OwnedXdpProg, drop_prog, xdp_attach_program}
use xdp_rs.MacByIfindex.{Device, mac_by_ifindex}
use xdp_rs.Create.Dropped.{drop_socket, mapped}
use xdp_rs.Create.Balance.{without}
use xdp_rs.Socket.{TxSocket, Inner}

-- What is not part of the repository. `netlink_socket n` is the socket of the `n`-th netlink query; the
-- three lists are the serialized requests; `xdp_pass` is the compiled program.
pub record Outside : Type 1 where
  pub libc : Libc
  pub kernel : Kernel
  pub info : Result HugePageInfo IoError
  pub bpf : LibBpf
  pub device : Device
  pub prefixes : PrefixMap
  pub builder : Fields → List ℕ → Written
  pub deserialize : List ℕ → Result Message IoError
  pub netlink_socket : ℕ → NetlinkSocket
  pub get_address : List ℕ
  pub get_route : List ℕ
  pub get_neighbour : List ℕ
  pub xdp_pass : List ℕ

-- The state: the system calls and what is held, the calls of libbpf, the number of netlink queries.
pub record Machine : Type 0 where
  pub process : Process
  pub bpf_log : List BpfCall
  pub queries : ℕ

abbrev pub App : Type 0 → Type 0
App A = Machine → Run (Result A IoError × Machine)

abbrev pub then_app :
    {A B : Type 0} → (A → App B) → Result A IoError × Machine → Run (Result B IoError × Machine)
then_app f (ok a, m) = f a m
then_app f (err e, m) = done (err e, m)

infixl 5 ◌>>=◌ ◌>>◌
abbrev pub ◌>>=◌ : {A B : Type 0} → App A → (A → App B) → App B
◌>>=◌ x f m = System.after_run (then_app f) (x m)

abbrev pub ◌>>◌ : {A B : Type 0} → App A → App B → App B
x >> y = x >>= λ _. y

abbrev pub pure : {A : Type 0} → A → App A
pure a m = done (ok a, m)

abbrev pub fail : {A : Type 0} → IoError → App A
fail e m = done (err e, m)

-- `ok_or_else`
abbrev pub or_fail : {A : Type 0} → IoError → Option A → App A
or_fail e none = fail e
or_fail e (some a) = pure a

-- `map_err` with a message in front
abbrev pub map_err : {A : Type 0} → String → App A → App A
map_err message x m = System.after_run (λ r. done (System.map_err message (r.0), r.1)) (x m)

-- A value that is dropped at the end of its scope, on every path that returns.
abbrev pub finally : {A : Type 0} → (Machine → Machine) → App A → App A
finally drop x m = System.after_run (λ r. done (r.0, drop (r.1))) (x m)

abbrev pub on_process : {A : Type 0} → Sys A → App A
on_process x m = System.after_run (λ r. done (r.0, record m { process = r.1 })) (x m.process)

module _ (o : Outside) where
  abbrev pub netlink_query : {A : Type 0} → (NetlinkSocket → Run (Result A IoError)) → App A
  netlink_query x m =
      System.after_run (λ r. done (r, record m { queries = m.queries + 1 }))
        (x (o.netlink_socket m.queries))

  -- `iter().find(|(addr, _)| addr == ip)`, and its interface
  abbrev pub interface_of : ℕ → List (ℕ × ℕ) → Option ℕ
  interface_of ip [] = none
  interface_of ip ((addr, if_index) ∷ rest) =
      if addr == ip then some if_index else interface_of ip rest

  -- `get_ipv4_address(None)?.iter().find(…).ok_or_else(…)?.1`
  unfoldable pub find_interface : ℕ → App ℕ
  find_interface ip = do
    addresses ← netlink_query (λ s. get_ipv4_address o.deserialize s o.get_address none)
    or_fail (other "Source IP not found") (interface_of ip addresses)

  -- `router.refresh()`, with its two queries
  abbrev pub refreshed :
      Router o.prefixes → Result (Unit {0}) IoError × Router o.prefixes → App (Router o.prefixes)
  refreshed r (ok _, r') = pure r'
  refreshed r (err e, r') = fail e

  unfoldable pub refresh_router : Router o.prefixes → App (Router o.prefixes)
  refresh_router r = do
    routes ← netlink_query (λ s. get_ipv4_routes o.deserialize s o.get_route (some r.if_index))
    neighbors ← netlink_query (λ s. get_neighbors o.deserialize s o.get_neighbour (some r.if_index))
    refreshed r (refresh o.prefixes r (ok routes) (ok neighbors))

  abbrev pub xdp_pass_prog : List ℕ
  xdp_pass_prog = 120 ∷ 100 ∷ 112 ∷ 95 ∷ 112 ∷ 97 ∷ 115 ∷ 115 ∷ []

  abbrev pub attached :
      Machine
      → Result OwnedXdpProg IoError × List BpfCall
      → Run (Result OwnedXdpProg IoError × Machine)
  attached m (r, log) = done (r, record m { bpf_log = log })

  -- `attach_pass_program`
  unfoldable pub attach_pass_program : ℕ → App OwnedXdpProg
  attach_pass_program if_index m =
      attached m (xdp_attach_program o.bpf if_index o.xdp_pass xdp_pass_prog m.bpf_log)

  abbrev pub drop_program : OwnedXdpProg → Machine → Machine
  drop_program prog m = record m { bpf_log = drop_prog prog m.bpf_log }

  abbrev pub answered :
      Machine → Result (List ℕ) IoError × List System.Call → Run (Result (List ℕ) IoError × Machine)
  answered m (r, log) = done (r, record m { process = record m.process { log = log } })

  abbrev pub mac_of : ℕ → App (List ℕ)
  mac_of if_index m = answered m (mac_by_ifindex o.device if_index m.process.log)

  abbrev pub give_back : TxSocket → Option Inner → List Resource → List Resource
  give_back s none live =
      without (mapped s.u_ring.mmap.mmap) (without (mapped s.x_ring.mmap.mmap) live)
  give_back s (some inner) live = without (mapped s.u_ring.mmap.mmap) (
      without (mapped s.x_ring.mmap.mmap)
        (without (descriptor inner.fd) (without (mapped inner.umem) live)))

  -- The end of a socket that nothing else shares.
  abbrev pub drop_tx : TxSocket → Machine → Machine
  drop_tx s m = record m {
    process = record {
      log = drop_socket o.libc true s m.process.log;
      live = give_back s s.inner m.process.live;
    };
  }
