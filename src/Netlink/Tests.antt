-- ===== src/Netlink/Tests.antt =====
-- Routes and messages.
use xdp_rs.Prelude.{
  ℕ, zero, suc, ◌≡◌, refl, arith, List, [], ◌∷◌, Option, some, none, done, Result, ok, err, IoError,
  other, length, replicate,
}
use xdp_rs.Netlink
use xdp_rs.Netlink.{Ipv4Route, Neighbor, Gateway, loop}
use xdp_rs.Netlink.Gateways.{IsChosen, find_default_gateway_lem}
use xdp_rs.Netlink.Messages.{loop_collects}
use xdp_rs.Netlink.Links.{LinkAttribute, if_name, address, mtu_of}
use xdp_rs.Netlink.Queries.{Message, new_neighbour, new_route, get_neighbors, get_ipv4_routes}
use xdp_rs.Netlink.Answers.{All, IsAskedRoute, get_ipv4_routes_lem}
use xdp_rs.Netlink.Query.{NetlinkSocket, netlink, netlink_ends}

abbrev route : ℕ → ℕ → Ipv4Route
route gateway priority = record {
  dest_prefix = 0;
  destination = 0;
  gateway = some gateway;
  out_if_index = some 2;
  priority = priority;
}

abbrev routes : List Ipv4Route
routes = route 1 200 ∷ route 2 100 ∷ route 3 100 ∷ []

find_default_gateway_lem_example : IsChosen (Netlink.find_default_gateway routes) routes
find_default_gateway_lem_example = find_default_gateway_lem routes

-- A message of one byte; the closure drops zeros.
abbrev deserialize : List ℕ → Result ℕ IoError
deserialize [] = err (other "empty")
deserialize (x ∷ xs) = ok x

abbrev encode : ℕ → List ℕ
encode x = x ∷ []

abbrev msg_len : ℕ → ℕ
msg_len x = 1

abbrev nonzero : ℕ → Result (Option ℕ) IoError
nonzero zero = ok none
nonzero (suc n) = ok (some (suc n))

loop_collects_example :
    loop deserialize msg_len nonzero 3 (5 ∷ 0 ∷ 6 ∷ []) [] ≡ done (ok (5 ∷ 6 ∷ []))
loop_collects_example =
    loop_collects deserialize msg_len nonzero encode 3 (5 ∷ 0 ∷ 6 ∷ []) (λ m rest. refl) (λ m. refl)
      (λ m. omega arith) (omega arith)

abbrev attributes : List Netlink.RouteAttribute
attributes = Netlink.via 1 ∷ Netlink.oif 2 ∷ Netlink.metric 100 ∷ []

ran : Netlink.ipv4_route (some 2) 0 attributes ≡ some (route 1 100)
unfolding Netlink.ipv4_route Netlink.read_route
ran = refl

abbrev neighbour_attributes : List Netlink.NeighbourAttribute
neighbour_attributes = Netlink.destination 9 ∷ Netlink.link_local_address (replicate 6 1) ∷ []

abbrev found : Neighbor
found = record { ip = 9; mac = replicate 6 1; if_index = 2 }

read : Netlink.neighbour none 2 neighbour_attributes ≡ some found
unfolding Netlink.neighbour Netlink.read_neighbour
read = refl

abbrev described : List LinkAttribute
described = if_name "eth0" ∷ address (2 ∷ 0 ∷ 0 ∷ 0 ∷ 0 ∷ 1 ∷ []) ∷ mtu_of 1500 ∷ []

-- The socket sends the request whole and receives three bytes.
abbrev answering : NetlinkSocket
answering = record {
  new = ok tt;
  bind = ok tt;
  send = λ send_buf. ok (length send_buf);
  recv_from_full = ok (5 ∷ 0 ∷ 6 ∷ []);
}

netlink_ends_example :
    (x : Result (List ℕ) IoError) × (netlink deserialize msg_len nonzero answering (1 ∷ [])
      ≡ done x)
netlink_ends_example = netlink_ends deserialize msg_len nonzero answering (1 ∷ [])

-- Messages of one byte: a neighbour and a route on the interface of that number.
abbrev six : List ℕ
six = 2 ∷ 0 ∷ 0 ∷ 0 ∷ 0 ∷ 1 ∷ []

abbrev neighbour_at : List ℕ → Result Message IoError
neighbour_at [] = err (other "empty")
neighbour_at (x ∷ xs) = ok (record {
  length = 1;
  payload = new_neighbour x (Netlink.destination 9 ∷ Netlink.link_local_address six ∷ []);
})

abbrev route_at : List ℕ → Result Message IoError
route_at [] = err (other "empty")
route_at (x ∷ xs) = ok (record {
  length = 1;
  payload = new_route 0 (Netlink.via 1 ∷ Netlink.oif x ∷ Netlink.metric 100 ∷ []);
})

abbrev replying : NetlinkSocket
replying = record answering { recv_from_full = ok (2 ∷ 7 ∷ 2 ∷ []) }

abbrev at_nine : Neighbor
at_nine = record { ip = 9; mac = six; if_index = 2 }

neighbours_of_two :
    get_neighbors neighbour_at replying (1 ∷ []) (some 2) ≡ done (ok (at_nine ∷ at_nine ∷ []))
unfolding get_neighbors netlink loop Netlink.neighbour Netlink.read_neighbour
neighbours_of_two = refl

routes_of_two :
    get_ipv4_routes route_at replying (1 ∷ []) (some 2) ≡ done (ok (route 1 100 ∷ route 1 100 ∷ []))
unfolding get_ipv4_routes netlink loop Netlink.ipv4_route Netlink.read_route
routes_of_two = refl

get_ipv4_routes_lem_example : All (IsAskedRoute (some 2)) (route 1 100 ∷ route 1 100 ∷ [])
get_ipv4_routes_lem_example =
    get_ipv4_routes_lem route_at replying (1 ∷ []) (some 2) (route 1 100 ∷ route 1 100 ∷ [])
      routes_of_two
