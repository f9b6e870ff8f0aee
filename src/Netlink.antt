-- ===== src/Netlink.antt =====
-- xdp-util/src/netlink.rs: what is read from the kernel's routing tables. The crates netlink-packet
-- and netlink-sys are not part of the repository: sending a request and decoding a message are
-- parameters.
pub mod Gateways
pub mod Messages
pub mod Filters
pub mod Links
pub mod Query
pub mod Queries
pub mod Answers
mod Tests
use xdp_rs.Prelude.{
  ℕ, zero, suc, ◌+◌, ◌-◌, Bool, true, false, Option, none, some, ◌||◌, List, [], ◌∷◌, ◌++◌, Run,
  done, panic, hang, ◌>>=◌, Result, ok, err, IoError, other, length, ltb, leb, not, replicate, ◌==◌,
  if◌then◌else◌,
}

-- IPv4 addresses are numbers.
pub record Ipv4Route : Type 0 where
  pub dest_prefix : ℕ
  pub destination : ℕ
  pub gateway : Option ℕ
  pub out_if_index : Option ℕ
  pub priority : ℕ

pub record Neighbor : Type 0 where
  pub ip : ℕ
  pub mac : List ℕ
  pub if_index : ℕ

pub record Gateway : Type 0 where
  pub ip : ℕ
  pub priority : ℕ
  pub if_index : ℕ

-- The pattern of `find_default_gateway`: a default route with a gateway and an output interface.
abbrev pub matched : ℕ → Option ℕ → Option ℕ → ℕ → Option Gateway
matched zero (some gw) (some oif) priority =
    some (record { ip = gw; priority = priority; if_index = oif })
matched zero none oif priority = none
matched zero (some gw) none priority = none
matched (suc p) gw oif priority = none

abbrev pub candidate : Ipv4Route → Option Gateway
candidate x = matched x.dest_prefix x.gateway x.out_if_index x.priority

-- One round of the fold.
abbrev pub keep_better : Option Gateway → Option Gateway → Option Gateway
keep_better acc none = acc
keep_better none (some x) = some x
keep_better (some a) (some x) = if ltb x.priority a.priority then some x else some a

abbrev pub fold_routes : Option Gateway → List Ipv4Route → Option Gateway
fold_routes acc [] = acc
fold_routes acc (x ∷ xs) = fold_routes (keep_better acc (candidate x)) xs

unfoldable pub find_default_gateway : List Ipv4Route → Option Gateway
find_default_gateway routes = fold_routes none routes

-- `&buffer[n..]`, which panics when `n` is past the end.
abbrev pub slice_from : ℕ → List ℕ → Run (List ℕ)
slice_from zero buffer = done buffer
slice_from (suc n) [] = panic
slice_from (suc n) (x ∷ buffer) = slice_from n buffer

-- The loop of `netlink` over the bytes received. `deserialize` gives the message at the front of the
-- buffer; `msg_len` is the length in its header; `f` is the caller's closure.
module _ {M R : Type 0} (deserialize : List ℕ → Result M IoError) (msg_len : M → ℕ)
    (f : M → Result (Option R) IoError) where
  abbrev pub push : List R → Option R → List R
  push result none = result
  push result (some r) = result ++ (r ∷ [])

  -- What the closure's answer on a message comes to: the results so far and the rest of the buffer.
  abbrev pub take_in :
      List ℕ → List R → M → Result (Option R) IoError → Run (Result (List R × List ℕ) IoError)
  take_in buffer result msg (err e) = done (err e)
  take_in buffer result msg (ok r) =
      if msg_len msg == 0 || ltb (length buffer) (msg_len msg)
      then done (err (other "Received a malformed netlink message (invalid length)"))
      else (do rest ← slice_from (msg_len msg) buffer; done (ok (push result r, rest)))

  abbrev pub decoded : List ℕ → List R → Result M IoError → Run (Result (List R × List ℕ) IoError)
  decoded buffer result (err e) = done (err e)
  decoded buffer result (ok msg) = take_in buffer result msg (f msg)

  -- One round of the loop.
  abbrev pub round : List ℕ → List R → Run (Result (List R × List ℕ) IoError)
  round buffer result = decoded buffer result (deserialize buffer)

  unfoldable pub loop : ℕ → List ℕ → List R → Run (Result (List R) IoError)
  loop fuel [] result = done (ok result)
  loop zero (x ∷ buffer) result = hang
  loop (suc fuel) (x ∷ buffer) result = do
    went ← round (x ∷ buffer) result
    elim went [ err e ↦ done (err e) | ok next ↦ loop fuel (next.1) (next.0) ]

-- The attributes of a neighbour message that the closure of `get_neighbors` tells apart.
pub data NeighbourAttribute : Type 0 where
  destination : ℕ → NeighbourAttribute
  link_local_address : List ℕ → NeighbourAttribute
  unread : NeighbourAttribute

-- The loop over the attributes: `none` is its early return.
unfoldable pub read_neighbour : Neighbor → List NeighbourAttribute → Option Neighbor
read_neighbour n [] = some n
read_neighbour n (destination ip ∷ rest) = read_neighbour (record n { ip = ip }) rest
read_neighbour n (link_local_address mac ∷ rest) =
    let next = read_neighbour (record n { mac = mac }) rest in
    if length mac == 6 then next else none
read_neighbour n (unread ∷ rest) = read_neighbour n rest

abbrev pub differs : Option ℕ → ℕ → Bool
differs none i = false
differs (some x) i = not (x == i)

-- The closure of `get_neighbors` on a new neighbour of interface `i`.
unfoldable pub neighbour : Option ℕ → ℕ → List NeighbourAttribute → Option Neighbor
neighbour if_index i attributes =
    if differs if_index i
    then none
    else read_neighbour (record { ip = 0; mac = replicate 6 0; if_index = i }) attributes

-- The attributes of a route message that the closure of `get_ipv4_routes` tells apart.
pub data RouteAttribute : Type 0 where
  route_to via oif metric : ℕ → RouteAttribute
  unread_route : RouteAttribute

-- The loop over the attributes, which another interface's index ends.
unfoldable pub read_route : Option ℕ → Ipv4Route → List RouteAttribute → Ipv4Route
read_route if_index r [] = r
read_route if_index r (route_to d ∷ rest) = read_route if_index (record r { destination = d }) rest
read_route if_index r (via g ∷ rest) = read_route if_index (record r { gateway = some g }) rest
read_route if_index r (oif i ∷ rest) =
    let next = read_route if_index (record r { out_if_index = some i }) rest in
    if differs if_index i then r else next
read_route if_index r (metric p ∷ rest) = read_route if_index (record r { priority = p }) rest
read_route if_index r (unread_route ∷ rest) = read_route if_index r rest

-- `route.out_if_index.and(Some(route))`
abbrev pub with_interface : Ipv4Route → Option ℕ → Option Ipv4Route
with_interface r none = none
with_interface r (some i) = some r

-- The closure of `get_ipv4_routes` on a new route.
unfoldable pub ipv4_route : Option ℕ → ℕ → List RouteAttribute → Option Ipv4Route
ipv4_route if_index prefix attributes =
    let r =
      read_route if_index
        (record {
          dest_prefix = prefix;
          destination = 0;
          gateway = none;
          out_if_index = none;
          priority = 0;
        })
        attributes in
    with_interface r r.out_if_index
