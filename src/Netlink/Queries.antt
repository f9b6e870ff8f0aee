-- ===== src/Netlink/Queries.antt =====
-- The four queries of xdp-util/src/netlink.rs: `netlink` with each of the closures. What a message is
-- decoded to belongs to the netlink crates; only the payloads that a closure looks at are told apart.
use xdp_rs.Prelude.{ℕ, Option, none, List, Run, Result, ok, IoError}
use xdp_rs.Netlink.{Neighbor, Ipv4Route, NeighbourAttribute, RouteAttribute, neighbour, ipv4_route}
use xdp_rs.Netlink.Links.{Link, LinkAttribute, AddressAttribute, link, ipv4_address}
use xdp_rs.Netlink.Query.{NetlinkSocket, netlink}

-- A payload, by the interface or the prefix length of its header and its attributes.
pub data Payload : Type 0 where
  new_neighbour : ℕ → List NeighbourAttribute → Payload
  new_route : ℕ → List RouteAttribute → Payload
  new_address : ℕ → List AddressAttribute → Payload
  new_link : ℕ → List LinkAttribute → Payload
  other_payload : Payload

pub record Message : Type 0 where
  pub length : ℕ
  pub payload : Payload

-- The closures.
abbrev pub on_neighbour : Option ℕ → Payload → Option Neighbor
on_neighbour if_index (new_neighbour i attributes) = neighbour if_index i attributes
on_neighbour if_index (new_route prefix attributes) = none
on_neighbour if_index (new_address i attributes) = none
on_neighbour if_index (new_link i attributes) = none
on_neighbour if_index other_payload = none

abbrev pub on_route : Option ℕ → Payload → Option Ipv4Route
on_route if_index (new_neighbour i attributes) = none
on_route if_index (new_route prefix attributes) = ipv4_route if_index prefix attributes
on_route if_index (new_address i attributes) = none
on_route if_index (new_link i attributes) = none
on_route if_index other_payload = none

abbrev pub on_address : Option ℕ → Payload → Option (ℕ × ℕ)
on_address if_index (new_neighbour i attributes) = none
on_address if_index (new_route prefix attributes) = none
on_address if_index (new_address i attributes) = ipv4_address if_index i attributes
on_address if_index (new_link i attributes) = none
on_address if_index other_payload = none

abbrev pub on_link : Payload → Option Link
on_link (new_neighbour i attributes) = none
on_link (new_route prefix attributes) = none
on_link (new_address i attributes) = none
on_link (new_link i attributes) = link i attributes
on_link other_payload = none

-- `request` is the serialized request.
module _ (deserialize : List ℕ → Result Message IoError) (socket : NetlinkSocket)
    (request : List ℕ) where
  abbrev pub query : {R : Type 0} → (Payload → Option R) → Run (Result (List R) IoError)
  query f =
      netlink deserialize (λ (m : Message). m.length) (λ (m : Message). ok (f m.payload)) socket
        request

  unfoldable pub get_neighbors : Option ℕ → Run (Result (List Neighbor) IoError)
  get_neighbors if_index = query (on_neighbour if_index)

  unfoldable pub get_ipv4_routes : Option ℕ → Run (Result (List Ipv4Route) IoError)
  get_ipv4_routes if_index = query (on_route if_index)

  unfoldable pub get_ipv4_address : Option ℕ → Run (Result (List (ℕ × ℕ)) IoError)
  get_ipv4_address if_index = query (on_address if_index)

  unfoldable pub get_links : Run (Result (List Link) IoError)
  get_links = query on_link
