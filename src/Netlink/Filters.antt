-- ===== src/Netlink/Filters.antt =====
-- Which neighbours and routes the closures of `get_neighbors` and `get_ipv4_routes` let through.
use xdp_rs.Prelude.{
  ℕ, ◌≡◌, refl, sym, arith, false, Option, none, some, List, [], ◌∷◌, length, replicate, ◌==◌,
  Bool-cases, inl, inr, ap, ◌∙◌,
}
use xdp_rs.Netlink

-- The interface of a route that comes out of the loop is one that was asked for.
abbrev IsAsked : Option ℕ → Option ℕ → Type 0
IsAsked if_index none = Unit {0}
IsAsked if_index (some i) = Netlink.differs if_index i ≡ false

read_route-IsAsked :
    (if_index : Option ℕ) (r : Netlink.Ipv4Route) (attributes : List Netlink.RouteAttribute)
    → IsAsked if_index r.out_if_index
    → IsAsked if_index (Netlink.read_route if_index r attributes).out_if_index
unfolding Netlink.read_route
read_route-IsAsked q r [] h = h
read_route-IsAsked q r (Netlink.route_to d ∷ rest) h = read_route-IsAsked q _ rest h
read_route-IsAsked q r (Netlink.via g ∷ rest) h = read_route-IsAsked q _ rest h
read_route-IsAsked q r (Netlink.oif i ∷ rest) h = elim (Bool-cases (Netlink.differs q i)) [
  | inl other ↦ rw (Netlink.read_route, other) h
  | inr asked ↦ rw (Netlink.read_route, asked) (read_route-IsAsked q _ rest asked)
]
read_route-IsAsked q r (Netlink.metric p ∷ rest) h = read_route-IsAsked q _ rest h
read_route-IsAsked q r (Netlink.unread_route ∷ rest) h = read_route-IsAsked q r rest h

with_interface_lem :
    (r route : Netlink.Ipv4Route) (o : Option ℕ)
    → Netlink.with_interface r o ≡ some route
    → (r ≡ route) × ((i : ℕ) × (o ≡ some i))
with_interface_lem r route none e = cc
with_interface_lem r route (some i) e = let same : r ≡ route = cc in (same, (i, refl))

-- Every route that the closure of `get_ipv4_routes` lets through has an output interface, and it is
-- the one asked for, if one was.
pub ipv4_route_lem :
    (if_index : Option ℕ) (prefix : ℕ) (attributes : List Netlink.RouteAttribute)
    (route : Netlink.Ipv4Route)
    → Netlink.ipv4_route if_index prefix attributes ≡ some route
    → (i : ℕ) × (route.out_if_index ≡ some i) × (Netlink.differs if_index i ≡ false)
unfolding Netlink.ipv4_route
ipv4_route_lem q prefix attributes route e =
    let kept = with_interface_lem r route r.out_if_index e in
    let i = kept.1.0 in
    let asked : IsAsked q r.out_if_index = read_route-IsAsked q start attributes tt in
    (
      i,
      ap (λ (t : Netlink.Ipv4Route). t.out_if_index) (sym (kept.0)) ∙ kept.1.1,
      rw (kept.1.1) at asked,
    )
  where
    start : Netlink.Ipv4Route
    start = record {
      dest_prefix = prefix;
      destination = 0;
      gateway = none;
      out_if_index = none;
      priority = 0;
    }

    r : Netlink.Ipv4Route
    r = Netlink.read_route q start attributes

read_neighbour_lem :
    (n : Netlink.Neighbor) (attributes : List Netlink.NeighbourAttribute) (m : Netlink.Neighbor)
    → length n.mac ≡ 6
    → Netlink.read_neighbour n attributes ≡ some m
    → (m.if_index ≡ n.if_index) × (length m.mac ≡ 6)
unfolding Netlink.read_neighbour
read_neighbour_lem n [] m six e =
    let same : n ≡ m = cc in (ap (λ (t : Netlink.Neighbor). t.if_index) (sym same), rw same at six)
read_neighbour_lem n (Netlink.destination ip ∷ rest) m six e = read_neighbour_lem _ rest m six e
read_neighbour_lem n (Netlink.link_local_address mac ∷ rest) m six e =
    elim (Bool-cases (length mac == 6)) [
      | inl long ↦
          read_neighbour_lem (record n { mac = mac }) rest m (ground arith)
            (rw (Netlink.read_neighbour, long) at e)
      | inr odd ↦ let absent = rw (Netlink.read_neighbour, odd) at e in cc
    ]
read_neighbour_lem n (Netlink.unread ∷ rest) m six e = read_neighbour_lem n rest m six e

-- Every neighbour that the closure of `get_neighbors` lets through is on the interface of the message,
-- which is the one asked for, if one was, and has a MAC address of 6 bytes.
pub neighbour_lem :
    (if_index : Option ℕ) (i : ℕ) (attributes : List Netlink.NeighbourAttribute)
    (m : Netlink.Neighbor)
    → Netlink.neighbour if_index i attributes ≡ some m
    → (m.if_index ≡ i) × (length m.mac ≡ 6) × (Netlink.differs if_index i ≡ false)
unfolding Netlink.neighbour
neighbour_lem q i attributes m e = elim (Bool-cases (Netlink.differs q i)) [
  | inl other ↦ let absent = rw other at e in cc
  | inr asked ↦
      let read =
        read_neighbour_lem (record { ip = 0; mac = replicate 6 0; if_index = i }) attributes m refl
          (rw asked at e) in
      (read.0, read.1, asked)
]
