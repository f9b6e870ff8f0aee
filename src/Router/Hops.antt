-- ===== src/Router/Hops.antt =====
-- Which next hops a refreshed router gives.
use mathlib.Core.List.{Mem, mem-cons_self, mem-cons_of_mem}
use xdp_rs.Prelude.{
  ℕ, ◌≡◌, sym, ap, ◌∙◌, arith, Option, none, some, List, [], ◌∷◌, Result, ok, err, IoError, ◌==◌,
  if◌then◌else◌, Bool-cases, Option-cases, Result-cases, inl, inr, ◌⊎◌,
}
use xdp_rs.Netlink.{Ipv4Route, Neighbor}
use xdp_rs.Router.{
  PrefixMap, NextHop, Neighbors, insert_all, Router, via_route, hop_at, or_else, unwrap_or, route,
  insert_routes, refresh,
}

-- The entries of the map are neighbours of the list, or entries of the first map.
insert_all_lem :
    (m : Neighbors) (ns : List Neighbor) (ip : ℕ) (n : Neighbor)
    → insert_all m ns ip ≡ some n
    → (m ip ≡ some n) ⊎ (Mem n ns × (n.ip ≡ ip))
insert_all_lem m [] ip n e = inl e
insert_all_lem m (x ∷ ns) ip n e =
    elim (insert_all_lem (λ i. if i == x.ip then some x else m i) ns ip n e) [
      | inr (rest, at) ↦ inr (mem-cons_of_mem x rest, at)
      | inl first ↦ elim (Bool-cases (ip == x.ip)) [
        | inl here ↦
            let found : some x ≡ some n = rw here at first in
            let same : x ≡ n = cc in
            let there : x.ip ≡ ip = ground arith in
            inr (rw (← same) mem-cons_self, rw (← same) there)
        | inr away ↦ inl (rw away at first)
      ]
    ]

module _ (P : PrefixMap) where
  -- What a hop says: the MAC address of the entry for its IP address.
  hop_at_lem :
      (neighbors : Neighbors) (ip : ℕ) (hop : NextHop)
      → hop_at P ip (neighbors ip) ≡ some hop
      → (n : Neighbor) × (neighbors hop.ip_addr ≡ some n) × (hop.mac_addr ≡ some n.mac)
  hop_at_lem neighbors ip hop e = elim (Option-cases (neighbors ip)) [
    | inl lacks ↦ let absent = rw lacks at e in cc
    | inr (n, has) ↦
        let found : some (record { ip_addr = ip; mac_addr = some n.mac }) ≡ some hop =
          rw has at e in
        let same : record { ip_addr = ip; mac_addr = some n.mac } ≡ hop = cc in
        (
          n,
          ap neighbors (ap (λ (t : NextHop). t.ip_addr) (sym same)) ∙ has,
          ap (λ (t : NextHop). t.mac_addr) (sym same),
        )
  ]

  pub route_lem :
      (r : Router P) (dest : ℕ) (hop : NextHop)
      → route P r dest ≡ some hop
      → (n : Neighbor) × (r.neighbors hop.ip_addr ≡ some n) × (hop.mac_addr ≡ some n.mac)
  unfolding route
  route_lem r dest hop e = go (P.get_lpm r.routes (P.host dest)) e
    where
      go :
          (o : Option Ipv4Route)
          → or_else P (via_route P r.neighbors dest o) (hop_at P dest (r.neighbors dest)) ≡ some hop
          → (n : Neighbor) × (r.neighbors hop.ip_addr ≡ some n) × (hop.mac_addr ≡ some n.mac)
      go none h = hop_at_lem r.neighbors dest hop h
      go (some x) h = elim (Option-cases (r.neighbors (unwrap_or P x.gateway dest))) [
        | inl lacks ↦ hop_at_lem r.neighbors dest hop (rw lacks at h)
        | inr (n, has) ↦
            hop_at_lem r.neighbors (unwrap_or P x.gateway dest) hop (rw has (rw has at h))
      ]

  -- After a refresh that succeeds, whatever the prefix map answers, every next hop that `route` gives
  -- is a neighbour that the kernel reported: the hop's MAC address is that of a reported neighbour
  -- with the hop's IP address.
  pub route-refresh :
      (r r' : Router P) (routes : List Ipv4Route) (neighbors : List Neighbor) (dest : ℕ)
      (hop : NextHop)
      → refresh P r (ok routes) (ok neighbors) ≡ (ok tt, r')
      → route P r' dest ≡ some hop
      → (n : Neighbor) × Mem n neighbors × (n.ip ≡ hop.ip_addr) × (hop.mac_addr ≡ some n.mac)
  unfolding refresh
  route-refresh r r' routes neighbors dest hop e h =
      elim (Result-cases (insert_routes P P.empty routes)) [
        | inr (x, failed) ↦ let no_result = ap (λ t. t.0) (rw failed at e) in cc
        | inl (m, built) ↦
            let same : record r { neighbors = insert_all (λ ip. none) neighbors; routes = m } ≡ r' =
              ap (λ t. t.1) (rw built at e) in
            let found = route_lem r' dest hop h in
            let n = found.0 in
            let entry : insert_all (λ ip. none) neighbors hop.ip_addr ≡ some n =
              ap (λ (t : Router P). t.neighbors hop.ip_addr) same ∙ found.1 in
            elim (insert_all_lem (λ ip. none) neighbors hop.ip_addr n entry) [
              | inl absent ↦ cc
              | inr (listed, at) ↦ (n, listed, at, found.2)
            ]
      ]

  -- A refresh that fails leaves the router as it was.
  pub refresh_fails :
      (r r' : Router P) (routes : Result (List Ipv4Route) IoError)
      (neighbors : Result (List Neighbor) IoError) (e : IoError)
      → refresh P r routes neighbors ≡ (err e, r')
      → r' ≡ r
  unfolding refresh
  refresh_fails r r' (err x) neighbors e h = ap (λ t. t.1) (sym h)
  refresh_fails r r' (ok routes) (err x) e h = ap (λ t. t.1) (sym h)
  refresh_fails r r' (ok routes) (ok neighbors) e h =
      elim (Result-cases (insert_routes P P.empty routes)) [
        | inr (x, failed) ↦ ap (λ t. t.1) (sym (rw failed at h))
        | inl (m, built) ↦ let no_error = ap (λ t. t.0) (rw built at h) in cc
      ]
