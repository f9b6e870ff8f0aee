-- ===== src/Router.antt =====
-- xdp-util/src/router.rs. The crates ipnet and prefix-trie are not part of the repository: networks
-- and the prefix map are parameters. A `HashMap` is modelled by its lookup.
pub mod Hops
pub mod Gateways
mod Tests
use xdp_rs.Prelude.{
  ℕ, Bool, Option, none, some, List, [], ◌∷◌, Result, ok, err, IoError, other, ◌==◌, if◌then◌else◌,
}
use xdp_rs.Netlink.{Ipv4Route, Neighbor}

-- `Ipv4Net::from`, `Ipv4Net::new`, and `PrefixMap::{new, insert, get_lpm}`.
pub record PrefixMap : Type 1 where
  pub Net : Type 0
  pub Map : Type 0
  pub host : ℕ → Net
  pub net : ℕ → ℕ → Option Net
  pub empty : Map
  pub insert : Map → Net → Ipv4Route → Map
  pub get_lpm : Map → Net → Option Ipv4Route

pub record NextHop : Type 0 where
  pub ip_addr : ℕ
  pub mac_addr : Option (List ℕ)

abbrev pub Neighbors : Type 0
Neighbors = ℕ → Option Neighbor

-- `neighbors.into_iter().map(|n| (n.ip, n)).collect()`: the last entry for an address stays.
abbrev pub insert_all : Neighbors → List Neighbor → Neighbors
insert_all m [] ip = m ip
insert_all m (n ∷ ns) ip = insert_all (λ i. if i == n.ip then some n else m i) ns ip

module _ (P : PrefixMap) where
  pub record Router : Type 0 where
    pub if_index : ℕ
    pub neighbors : Neighbors
    pub routes : P.Map

  -- `Router::new`
  abbrev pub new : ℕ → Router
  new if_index = record { if_index = if_index; neighbors = λ ip. none; routes = P.empty }

  abbrev pub hop_at : ℕ → Option Neighbor → Option NextHop
  hop_at ip none = none
  hop_at ip (some n) = some (record { ip_addr = ip; mac_addr = some n.mac })

  -- `route.gateway.as_ref().unwrap_or(dest_ip)`
  abbrev pub unwrap_or : Option ℕ → ℕ → ℕ
  unwrap_or none d = d
  unwrap_or (some g) d = g

  abbrev pub or_else : Option NextHop → Option NextHop → Option NextHop
  or_else none y = y
  or_else (some h) y = some h

  -- The first `if let`.
  abbrev pub via_route : Neighbors → ℕ → Option Ipv4Route → Option NextHop
  via_route neighbors dest none = none
  via_route neighbors dest (some r) =
      hop_at (unwrap_or r.gateway dest) (neighbors (unwrap_or r.gateway dest))

  unfoldable pub route : Router → ℕ → Option NextHop
  route r dest =
      or_else (via_route r.neighbors dest (P.get_lpm r.routes (P.host dest)))
        (hop_at dest (r.neighbors dest))

  -- The loop of `refresh`: a route without a gateway is left out.
  abbrev pub insert_route : P.Map → P.Net → Ipv4Route → Option ℕ → P.Map
  insert_route m n r none = m
  insert_route m n r (some g) = P.insert m n r

  unfoldable pub insert_routes : P.Map → List Ipv4Route → Result P.Map IoError
  insert_routes m [] = ok m
  insert_routes m (r ∷ rs) = elim (P.net r.destination r.dest_prefix) [
    | none ↦ err (other "Invalid destination prefix")
    | some n ↦ insert_routes (insert_route m n r r.gateway) rs
  ]

  -- `refresh`, by what the two calls of netlink come to. An error leaves the router as it is.
  abbrev pub rebuilt :
      Router → List Neighbor → Result P.Map IoError → Result (Unit {0}) IoError × Router
  rebuilt r ns (err e) = (err e, r)
  rebuilt r ns (ok m) = (ok tt, record r { neighbors = insert_all (λ ip. none) ns; routes = m })

  unfoldable pub refresh :
      Router
      → Result (List Ipv4Route) IoError
      → Result (List Neighbor) IoError
      → Result (Unit {0}) IoError × Router
  refresh r (err e) neighbors = (err e, r)
  refresh r (ok routes) (err e) = (err e, r)
  refresh r (ok routes) (ok neighbors) = rebuilt r neighbors (insert_routes P.empty routes)
