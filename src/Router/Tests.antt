-- ===== src/Router/Tests.antt =====
-- A router whose prefix map keeps one route.
use mathlib.Core.List.{Mem}
use xdp_rs.Prelude.{ℕ, ◌≡◌, refl, List, [], ◌∷◌, Option, some, none, ok, replicate}
use xdp_rs.Netlink.{Ipv4Route, Neighbor}
use xdp_rs.Router.{PrefixMap, NextHop, Router, new, route, refresh, insert_routes}
use xdp_rs.Prelude.{sym, inl}
use xdp_rs.Router.Gateways.{IsPrefixMap, first_known, route-refresh_covered}
use xdp_rs.Router.Hops.{route-refresh}

abbrev last_route : PrefixMap
last_route = record {
  Net = ℕ;
  Map = Option Ipv4Route;
  host = λ ip. ip;
  net = λ ip prefix. some ip;
  empty = none;
  insert = λ m n r. some r;
  get_lpm = λ m n. m;
}

abbrev router : Router last_route
router = new last_route 2

abbrev via_one : Ipv4Route
via_one = record {
  dest_prefix = 0;
  destination = 0;
  gateway = some 1;
  out_if_index = some 2;
  priority = 100;
}

abbrev neighbors : List Neighbor
neighbors = record { ip = 1; mac = replicate 6 7; if_index = 2 } ∷ []

abbrev refreshed : Router last_route
refreshed = (refresh last_route router (ok (via_one ∷ [])) (ok neighbors)).1

abbrev hop : NextHop
hop = record { ip_addr = 1; mac_addr = some (replicate 6 7) }

route-refresh_example :
    (n : Neighbor) × Mem n neighbors × (n.ip ≡ 1) × (some (replicate 6 7) ≡ some n.mac)
unfolding refresh insert_routes route
route-refresh_example =
    route-refresh last_route router refreshed (via_one ∷ []) neighbors 9 hop refl refl

-- A network on the link, to which address 9 belongs, and a default route.
abbrev link_route : Ipv4Route
link_route = record {
  dest_prefix = 24;
  destination = 9;
  gateway = none;
  out_if_index = some 2;
  priority = 0;
}

abbrev both_neighbors : List Neighbor
both_neighbors = record { ip = 9; mac = replicate 6 8; if_index = 2 } ∷ neighbors

abbrev refreshed_both : Router last_route
refreshed_both = (refresh last_route router (ok (link_route ∷ via_one ∷ [])) (ok both_neighbors)).1

last_route-IsPrefixMap : IsPrefixMap last_route
last_route-IsPrefixMap = record {
  nothing = λ q. refl;
  inserted = λ m n q x y found. inl (let same : x ≡ y = cc in sym same);
}

route-refresh_covered_example :
    (g : ℕ) × (some 1 ≡ some g)
    × (route last_route refreshed_both 9 ≡ first_known both_neighbors (g ∷ 9 ∷ []))
unfolding refresh insert_routes
route-refresh_covered_example =
    route-refresh_covered last_route last_route-IsPrefixMap router refreshed_both
      (link_route ∷ via_one ∷ []) both_neighbors 9 via_one refl refl

-- Although 9 is a neighbour on the link, its packets go to the gateway's MAC address.
sent_to_gateway : route last_route refreshed_both 9 ≡ some hop
unfolding refresh insert_routes route
sent_to_gateway = refl
