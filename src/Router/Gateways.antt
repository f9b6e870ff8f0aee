-- ===== src/Router/Gateways.antt =====
-- Which routes a refreshed router keeps.
use xdp_rs.Prelude.{
  ℕ, ◌==◌, if◌then◌else◌, Bool-cases, ◌≡◌, refl, sym, ap, ◌∙◌, Option, none, some, List, [], ◌∷◌,
  ok, Option-cases, Result-cases, inl, inr, ◌⊎◌,
}
use xdp_rs.Netlink.{Ipv4Route, Neighbor}
use xdp_rs.Router.{
  PrefixMap, NextHop, Neighbors, Router, hop_at, or_else, route, insert_route, insert_routes,
  insert_all, refresh,
}

-- What `PrefixMap` documents: an empty map finds nothing, and a map finds only what was inserted.
pub record IsPrefixMap (P : PrefixMap) : Type 0 where
  pub nothing : (q : P.Net) → P.get_lpm P.empty q ≡ none
  pub inserted :
      (m : P.Map) (n q : P.Net) (x y : Ipv4Route)
      → P.get_lpm (P.insert m n x) q ≡ some y
      → (y ≡ x) ⊎ (P.get_lpm m q ≡ some y)

-- The last of the reported neighbours with an address.
abbrev pub last_reported : List Neighbor → ℕ → Option Neighbor
last_reported [] ip = none
last_reported (n ∷ ns) ip =
    let later = last_reported ns ip in
    elim later [ some m ↦ some m | none ↦ if ip == n.ip then some n else none ]

-- The address, if it is that of a reported neighbour, with the MAC address of the last one reported; else
-- what the addresses behind it give.
abbrev pub first_known : List Neighbor → List ℕ → Option NextHop
first_known neighbors [] = none
first_known neighbors (ip ∷ ips) = elim (last_reported neighbors ip) [
  | some n ↦ some (record { ip_addr = ip; mac_addr = some n.mac })
  | none ↦ first_known neighbors ips
]

abbrev first_of_two : Option Neighbor → Option Neighbor → Option Neighbor
first_of_two none o = o
first_of_two (some n) o = some n

insert_all-first_of_two :
    (m : Neighbors) (ns : List Neighbor) (ip : ℕ)
    → insert_all m ns ip ≡ first_of_two (last_reported ns ip) (m ip)
insert_all-first_of_two m [] ip = refl
insert_all-first_of_two m (x ∷ ns) ip =
    insert_all-first_of_two (λ i. if i == x.ip then some x else m i) ns ip
    ∙ (elim (Option-cases (last_reported ns ip)) [
      | inr (n, later) ↦ rw later refl
      | inl absent ↦ elim (Bool-cases (ip == x.ip)) [
        | inl here ↦ rw (absent, here) refl
        | inr away ↦ rw (absent, away) refl
      ]
    ])

insert_all-last_reported :
    (ns : List Neighbor) (ip : ℕ) → insert_all (λ i. none) ns ip ≡ last_reported ns ip
insert_all-last_reported ns ip =
    insert_all-first_of_two (λ i. none) ns ip ∙ same (last_reported ns ip)
  where
    same : (o : Option Neighbor) → first_of_two o none ≡ o
    same none = refl
    same (some n) = refl

module _ (P : PrefixMap) (laws : IsPrefixMap P) where
  abbrev HaveGateways : P.Map → Type 0
  HaveGateways m =
      (q : P.Net) (y : Ipv4Route) → P.get_lpm m q ≡ some y → (g : ℕ) × (y.gateway ≡ some g)

  insert_route-HaveGateways :
      (m : P.Map) (n : P.Net) (x : Ipv4Route) (o : Option ℕ)
      → x.gateway ≡ o
      → HaveGateways m
      → HaveGateways (insert_route P m n x o)
  insert_route-HaveGateways m n x none e h = h
  insert_route-HaveGateways m n x (some g) e h = λ q y found. elim (laws.inserted m n q x y found) [
    | inl this ↦ (g, rw this e)
    | inr before ↦ h q y before
  ]

  insert_routes-HaveGateways :
      (m m' : P.Map) (routes : List Ipv4Route)
      → HaveGateways m
      → insert_routes P m routes ≡ ok m'
      → HaveGateways m'
  unfolding insert_routes
  insert_routes-HaveGateways m m' [] h e = let same : m ≡ m' = cc in rw same at h
  insert_routes-HaveGateways m m' (x ∷ rest) h e =
      elim (Option-cases (P.net x.destination x.dest_prefix)) [
        | inl odd ↦ let failed = rw (insert_routes, odd) at e in cc
        | inr (n, good) ↦
            insert_routes-HaveGateways (insert_route P m n x x.gateway) m' rest
              (insert_route-HaveGateways m n x x.gateway refl h) (rw (insert_routes, good) at e)
      ]

  route-covered :
      (r : Router P) (ns : List Neighbor) (dest : ℕ) (y : Ipv4Route) (g : ℕ)
      → ((ip : ℕ) → r.neighbors ip ≡ last_reported ns ip)
      → P.get_lpm r.routes (P.host dest) ≡ some y
      → y.gateway ≡ some g
      → route P r dest ≡ first_known ns (g ∷ dest ∷ [])
  unfolding route
  route-covered r ns dest y g known found via =
      rw (found, via, known g, known dest) (two_known (last_reported ns g) (last_reported ns dest))
    where
      two_known :
          (a b : Option Neighbor)
          → or_else P (hop_at P g a) (hop_at P dest b) ≡ elim a [
            | some n ↦ some (record { ip_addr = g; mac_addr = some n.mac })
            | none ↦ elim b [
              | some n ↦ some (record { ip_addr = dest; mac_addr = some n.mac })
              | none ↦ none
            ]
          ]
      two_known none none = refl
      two_known none (some n) = refl
      two_known (some m) none = refl
      two_known (some m) (some n) = refl

  -- After a refresh that succeeds, with a prefix map that finds only what was inserted: where the map
  -- finds a route for a destination, that route has a gateway, and the destination is sent to the
  -- gateway, with the MAC address of the last neighbour reported at the gateway's address, even where the
  -- destination is itself a reported neighbour; where no neighbour was reported at the gateway's address,
  -- it is sent to the last neighbour reported at its own, if there is one, and else nowhere.
  pub route-refresh_covered :
      (r r' : Router P) (routes : List Ipv4Route) (neighbors : List Neighbor) (dest : ℕ)
      (y : Ipv4Route)
      → refresh P r (ok routes) (ok neighbors) ≡ (ok tt, r')
      → P.get_lpm r'.routes (P.host dest) ≡ some y
      → (g : ℕ) × (y.gateway ≡ some g) × (route P r' dest ≡ first_known neighbors (g ∷ dest ∷ []))
  unfolding refresh
  route-refresh_covered r r' routes neighbors dest y e found =
      elim (Result-cases (insert_routes P P.empty routes)) [
        | inr (x, failed) ↦ let no_result = ap (λ t. t.0) (rw failed at e) in cc
        | inl (m, built) ↦
            let same : record r { neighbors = insert_all (λ ip. none) neighbors; routes = m } ≡ r' =
              ap (λ t. t.1) (rw built at e) in
            let kept : m ≡ r'.routes = ap (λ (t : Router P). t.routes) same in
            let none_yet : HaveGateways P.empty =
              λ q z h. let no_route = sym (laws.nothing q) ∙ h in cc in
            let all = insert_routes-HaveGateways P.empty m routes none_yet built in
            let via = all (P.host dest) y (rw (sym kept) at found) in
            let known : (ip : ℕ) → r'.neighbors ip ≡ last_reported neighbors ip = λ ip.
              ap (λ (t : Router P). t.neighbors ip) (sym same)
              ∙ insert_all-last_reported neighbors ip in
            (via.0, via.1, route-covered r' neighbors dest y (via.0) known found (via.1))
      ]
