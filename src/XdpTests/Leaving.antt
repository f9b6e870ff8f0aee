-- ===== src/XdpTests/Leaving.antt =====
-- What a computation of a program leaves behind.
use xdp_rs.Prelude.{
  ℕ, ◌+◌, ◌≡◌, refl, ap, ◌∙◌, Option, none, some, List, Run, done, Result, ok, err, IoError, other,
}
use Prim.Native.String.{String}
use xdp_rs.System
use xdp_rs.System.{Process, Resource}
use xdp_rs.Create.Balance.{held}
use xdp_rs.Create.Dropped.{copies}
use xdp_rs.Netlink.{Ipv4Route, Neighbor}
use xdp_rs.Netlink.Query.{NetlinkSocket, netlink_ends}
use xdp_rs.Netlink.Queries.{get_ipv4_address, get_ipv4_routes, get_neighbors}
use xdp_rs.Router.{Router, refresh}
use xdp_rs.XdpProg.Lifetime.{in_use}
use xdp_rs.XdpTests.Machine.{
  Outside, Machine, App, ◌>>=◌, map_err, or_fail, netlink_query, refreshed, find_interface,
  interface_of, refresh_router,
}

-- It has returned, and made no call but queries.
pub record IsQuiet {A : Type 0} (m : Machine) (x : Run (Result A IoError × Machine)) : Type 0 where
  pub result : Result A IoError
  pub machine : Machine
  pub ran : x ≡ done (result, machine)
  pub process : machine.process ≡ m.process
  pub bpf_log : machine.bpf_log ≡ m.bpf_log

-- It has returned; each descriptor and area is held as often as before, and the same objects and links of
-- libbpf are in use.
pub record Leaves (m : Machine) (x : Run (Result (Unit {0}) IoError × Machine)) : Type 0 where
  pub result : Result (Unit {0}) IoError
  pub machine : Machine
  pub ran : x ≡ done (result, machine)
  pub held_again :
      (r : Resource) → copies r (held machine.process.log) ≡ copies r (held m.process.log)
  pub in_use_again : in_use machine.bpf_log ≡ in_use m.bpf_log

pub Leaves-from :
    {m m' : Machine} {x : Run (Result (Unit {0}) IoError × Machine)}
    → m'.process ≡ m.process
    → m'.bpf_log ≡ m.bpf_log
    → Leaves m' x
    → Leaves m x
Leaves-from {m} {m'} {x} p q l = record {
  result = l.result;
  machine = l.machine;
  ran = l.ran;
  held_again = λ r. l.held_again r ∙ ap (λ (z : Process). copies r (held z.log)) p;
  in_use_again = l.in_use_again ∙ ap in_use q;
}

module _ {A B : Type 0} (x : App A) (f : A → App B) (m : Machine) where
  pub IsQuiet-bind :
      IsQuiet m (x m) → ((a : A) (m' : Machine) → IsQuiet m' (f a m')) → IsQuiet m ((x >>= f) m)
  IsQuiet-bind q rest = go q.result q.machine q.ran q.process q.bpf_log
    where
      go :
          (r : Result A IoError) (m' : Machine)
          → x m ≡ done (r, m')
          → m'.process ≡ m.process
          → m'.bpf_log ≡ m.bpf_log
          → IsQuiet m ((x >>= f) m)
      go (err e) m' ran p l = record {
        result = err e;
        machine = m';
        ran = rw ran;
        process = p;
        bpf_log = l;
      }
      go (ok a) m' ran p l =
          let next = rest a m' in
          record {
            result = next.result;
            machine = next.machine;
            ran = rw ran next.ran;
            process = next.process ∙ p;
            bpf_log = next.bpf_log ∙ l;
          }

-- What follows a quiet computation.
pub Leaves-bind :
    {A : Type 0} (x : App A) (f : A → App (Unit {0})) (m : Machine)
    → IsQuiet m (x m)
    → ((a : A) (m' : Machine) → m'.process ≡ m.process → Leaves m' (f a m'))
    → Leaves m ((x >>= f) m)
Leaves-bind {A} x f m q rest = go q.result q.machine q.ran q.process q.bpf_log
  where
    go :
        (r : Result A IoError) (m' : Machine)
        → x m ≡ done (r, m')
        → m'.process ≡ m.process
        → m'.bpf_log ≡ m.bpf_log
        → Leaves m ((x >>= f) m)
    go (err e) m' ran p l = record {
      result = err e;
      machine = m';
      ran = rw ran;
      held_again = λ r. ap (λ (z : Process). copies r (held z.log)) p;
      in_use_again = ap in_use l;
    }
    go (ok a) m' ran p l = rw ran (Leaves-from p l (rest a m' p))

pub map_err-IsQuiet :
    {A : Type 0} (message : String) (x : App A) (m : Machine)
    → IsQuiet m (x m)
    → IsQuiet m (map_err message x m)
map_err-IsQuiet message x m q = record {
  result = System.map_err message q.result;
  machine = q.machine;
  ran = rw q.ran refl;
  process = q.process;
  bpf_log = q.bpf_log;
}

pub or_fail-IsQuiet :
    {A : Type 0} (e : IoError) (o : Option A) (m : Machine) → IsQuiet m (or_fail e o m)
or_fail-IsQuiet e none m = record {
  result = err e;
  machine = m;
  ran = refl;
  process = refl;
  bpf_log = refl;
}
or_fail-IsQuiet e (some a) m = record {
  result = ok a;
  machine = m;
  ran = refl;
  process = refl;
  bpf_log = refl;
}

module _ (o : Outside) where
  netlink_query-IsQuiet :
      {A : Type 0} (x : NetlinkSocket → Run (Result A IoError)) (m : Machine)
      → ((s : NetlinkSocket) → (r : Result A IoError) × (x s ≡ done r))
      → IsQuiet m (netlink_query o x m)
  netlink_query-IsQuiet x m ends =
      let end = ends (o.netlink_socket m.queries) in
      record {
        result = end.0;
        machine = record m { queries = m.queries + 1 };
        ran = rw end.1;
        process = refl;
        bpf_log = refl;
      }

  abbrev pub addresses : App (List (ℕ × ℕ))
  addresses = netlink_query o (λ s. get_ipv4_address o.deserialize s o.get_address none)

  pub addresses-IsQuiet : (m : Machine) → IsQuiet m (addresses m)
  unfolding get_ipv4_address
  addresses-IsQuiet m =
      netlink_query-IsQuiet (λ s. get_ipv4_address o.deserialize s o.get_address none) m
        λ s. netlink_ends o.deserialize _ _ s o.get_address

  -- Looking for the interface of an address makes no call but a query, and returns.
  pub find_interface-IsQuiet : (ip : ℕ) (m : Machine) → IsQuiet m (find_interface o ip m)
  unfolding find_interface
  find_interface-IsQuiet ip m =
      IsQuiet-bind addresses (λ a. or_fail (other "Source IP not found") (interface_of o ip a)) m
        (addresses-IsQuiet m)
        λ a m'. or_fail-IsQuiet (other "Source IP not found") (interface_of o ip a) m'

  refreshed-IsQuiet :
      (r : Router o.prefixes) (x : Result (Unit {0}) IoError × Router o.prefixes) (m : Machine)
      → IsQuiet m (refreshed o r x m)
  refreshed-IsQuiet r (ok _, r') m = record {
    result = ok r';
    machine = m;
    ran = refl;
    process = refl;
    bpf_log = refl;
  }
  refreshed-IsQuiet r (err e, r') m = record {
    result = err e;
    machine = m;
    ran = refl;
    process = refl;
    bpf_log = refl;
  }

  routes : Router o.prefixes → App (List Ipv4Route)
  routes r = netlink_query o (λ s. get_ipv4_routes o.deserialize s o.get_route (some r.if_index))

  neighbors : Router o.prefixes → App (List Neighbor)
  neighbors r =
      netlink_query o (λ s. get_neighbors o.deserialize s o.get_neighbour (some r.if_index))

  routes-IsQuiet : (r : Router o.prefixes) (m : Machine) → IsQuiet m (routes r m)
  unfolding routes get_ipv4_routes
  routes-IsQuiet r m =
      netlink_query-IsQuiet (λ s. get_ipv4_routes o.deserialize s o.get_route (some r.if_index)) m
        λ s. netlink_ends o.deserialize _ _ s o.get_route

  neighbors-IsQuiet : (r : Router o.prefixes) (m : Machine) → IsQuiet m (neighbors r m)
  unfolding neighbors get_neighbors
  neighbors-IsQuiet r m =
      netlink_query-IsQuiet (λ s. get_neighbors o.deserialize s o.get_neighbour (some r.if_index)) m
        λ s. netlink_ends o.deserialize _ _ s o.get_neighbour

  -- A refresh of the router makes no calls but its two queries, and returns.
  pub refresh_router-IsQuiet :
      (r : Router o.prefixes) (m : Machine) → IsQuiet m (refresh_router o r m)
  unfolding refresh_router routes neighbors
  refresh_router-IsQuiet r m =
      IsQuiet-bind (routes r)
        (λ xs. do ns ← neighbors r; refreshed o r (refresh o.prefixes r (ok xs) (ok ns))) m
        (routes-IsQuiet r m)
        λ xs m'.
          IsQuiet-bind (neighbors r) (λ ns. refreshed o r (refresh o.prefixes r (ok xs) (ok ns))) m'
            (neighbors-IsQuiet r m')
            λ ns m''. refreshed-IsQuiet r (refresh o.prefixes r (ok xs) (ok ns)) m''
