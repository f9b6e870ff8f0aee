-- ===== src/Netlink/Answers.antt =====
-- What the queries return, whatever the kernel sends.
use xdp_rs.Prelude.{
  arith, ℕ, zero, suc, ◌≡◌, ap, ◌∙◌, false, Option, none, some, ◌||◌, List, [], ◌∷◌, ◌++◌, done,
  Result, ok, err, IoError, length, ltb, ◌==◌, Bool-cases, Result-cases, inl, inr,
}
use xdp_rs.Netlink.{Neighbor, Ipv4Route, push, round, loop, differs}
use xdp_rs.Netlink.Messages.{slice_from_lem, shorter}
use xdp_rs.Netlink.Filters.{ipv4_route_lem, neighbour_lem}
use xdp_rs.Netlink.Query.{NetlinkSocket, netlink, after_new, after_bind, after_send, read_reply}
use xdp_rs.Netlink.Queries.{
  Payload, Message, new_neighbour, new_route, new_address, new_link, other_payload, on_neighbour,
  on_route, get_neighbors, get_ipv4_routes,
}

abbrev pub All : {R : Type 0} → (R → Type 0) → List R → Type 0
All P [] = Unit {0}
All P (x ∷ xs) = P x × All P xs

All-append : {R : Type 0} (P : R → Type 0) (xs ys : List R) → All P xs → All P ys → All P (xs ++ ys)
All-append P [] ys a b = b
All-append P (x ∷ xs) ys (here, rest) b = (here, All-append P xs ys rest b)

-- Everything that the loop collects has a property that each answer of the closure has.
module _ {M R : Type 0} (deserialize : List ℕ → Result M IoError) (msg_len : M → ℕ)
    (f : M → Result (Option R) IoError) (P : R → Type 0)
    (answers : (m : M) (r : R) → f m ≡ ok (some r) → P r) where
  push-All :
      (result : List R) (m : M) (o : Option R)
      → f m ≡ ok o
      → All P result
      → All P (push deserialize msg_len f result o)
  push-All result m none e all = all
  push-All result m (some r) e all = All-append P result (r ∷ []) all (answers m r e, tt)

  round-All :
      (buffer : List ℕ) (result : List R) (next : List R × List ℕ)
      → round deserialize msg_len f buffer result ≡ done (ok next)
      → All P result
      → All P (next.0)
  round-All buffer result next e all = elim (Result-cases (deserialize buffer)) [
    | inr (x, bad) ↦ let failed = rw bad at e in cc
    | inl (msg, read) ↦ elim (Result-cases (f msg)) [
      | inr (x, refused) ↦ let failed = rw (read, refused) at e in cc
      | inl (r, taken) ↦ elim (Bool-cases (msg_len msg == 0 || ltb (length buffer) (msg_len msg))) [
        | inl odd ↦ let failed = rw (read, taken, odd) at e in cc
        | inr good ↦
            let sliced = slice_from_lem (msg_len msg) buffer (ground arith) in
            let went = rw (read, taken, good, sliced.1) at e in
            let same : (push deserialize msg_len f result r, sliced.0) ≡ next = cc in
            rw (ap (λ (z : List R × List ℕ). z.0) same) at (push-All result msg r taken all)
      ]
    ]
  ]

  loop-All :
      (fuel : ℕ) (buffer : List ℕ) (result out : List R)
      → All P result
      → loop deserialize msg_len f fuel buffer result ≡ done (ok out)
      → All P out
  unfolding loop
  loop-All fuel [] result out all e = let same : result ≡ out = cc in rw same at all
  loop-All zero (x ∷ buffer) result out all e = cc
  loop-All (suc fuel) (x ∷ buffer) result out all e =
      elim (shorter deserialize msg_len f x buffer result) [
        | inl (y, failed) ↦ let no = rw (loop, failed) at e in cc
        | inr (next, went, less) ↦
            loop-All fuel (next.1) (next.0) out (round-All (x ∷ buffer) result next went all)
              (rw (loop, went) at e)
      ]

  module _ (socket : NetlinkSocket) where
    reply-All :
        (r : Result (List ℕ) IoError) (out : List R)
        → read_reply deserialize msg_len f socket r ≡ done (ok out)
        → All P out
    reply-All (err e) out h = cc
    reply-All (ok buf) out h = loop-All (length buf) buf [] out tt h

    send-All :
        (request : List ℕ) (r : Result ℕ IoError) (out : List R)
        → after_send deserialize msg_len f socket request r ≡ done (ok out)
        → All P out
    send-All request (err e) out h = cc
    send-All request (ok n) out h = elim (Bool-cases (n == length request)) [
      | inl whole ↦ reply-All socket.recv_from_full out (rw whole at h)
      | inr part ↦ let no = rw part at h in cc
    ]

    bind-All :
        (request : List ℕ) (r : Result (Unit {0}) IoError) (out : List R)
        → after_bind deserialize msg_len f socket request r ≡ done (ok out)
        → All P out
    bind-All request (err e) out h = cc
    bind-All request (ok _) out h = send-All request (socket.send request) out h

    new-All :
        (request : List ℕ) (r : Result (Unit {0}) IoError) (out : List R)
        → after_new deserialize msg_len f socket request r ≡ done (ok out)
        → All P out
    new-All request (err e) out h = cc
    new-All request (ok _) out h = bind-All request socket.bind out h

    netlink-All :
        (request : List ℕ) (out : List R)
        → netlink deserialize msg_len f socket request ≡ done (ok out)
        → All P out
    unfolding netlink
    netlink-All request out h = new-All request socket.new out h

ok-some : {A : Type 0} {a b : Option A} → ◌≡◌ {A = Result (Option A) IoError} (ok a) (ok b) → a ≡ b
ok-some h = cc

differs_lem : (q i : ℕ) → differs (some q) i ≡ false → i ≡ q
differs_lem q i h = ground arith

-- A neighbour on the interface that was asked for, if one was, with a MAC address of 6 bytes.
abbrev pub IsAskedNeighbour : Option ℕ → Neighbor → Type 0
IsAskedNeighbour none n = length n.mac ≡ 6
IsAskedNeighbour (some q) n = (length n.mac ≡ 6) × (n.if_index ≡ q)

differs-IsAskedNeighbour :
    (if_index : Option ℕ) (n : Neighbor)
    → length n.mac ≡ 6
    → differs if_index n.if_index ≡ false
    → IsAskedNeighbour if_index n
differs-IsAskedNeighbour none n six h = six
differs-IsAskedNeighbour (some q) n six h = (six, differs_lem q n.if_index h)

on_neighbour_lem :
    (if_index : Option ℕ) (p : Payload) (n : Neighbor)
    → on_neighbour if_index p ≡ some n
    → IsAskedNeighbour if_index n
on_neighbour_lem q (new_neighbour i attributes) n h =
    let read = neighbour_lem q i attributes n h in
    differs-IsAskedNeighbour q n (read.1) (ap (differs q) (read.0) ∙ read.2)
on_neighbour_lem q (new_route prefix attributes) n h = cc
on_neighbour_lem q (new_address i attributes) n h = cc
on_neighbour_lem q (new_link i attributes) n h = cc
on_neighbour_lem q other_payload n h = cc

-- A route with an output interface: the one that was asked for, if one was.
abbrev pub IsAskedRoute : Option ℕ → Ipv4Route → Type 0
IsAskedRoute none r = (i : ℕ) × (r.out_if_index ≡ some i)
IsAskedRoute (some q) r = r.out_if_index ≡ some q

differs-IsAskedRoute :
    (if_index : Option ℕ) (r : Ipv4Route) (i : ℕ)
    → r.out_if_index ≡ some i
    → differs if_index i ≡ false
    → IsAskedRoute if_index r
differs-IsAskedRoute none r i out h = (i, out)
differs-IsAskedRoute (some q) r i out h = out ∙ ap some (differs_lem q i h)

on_route_lem :
    (if_index : Option ℕ) (p : Payload) (r : Ipv4Route)
    → on_route if_index p ≡ some r
    → IsAskedRoute if_index r
on_route_lem q (new_neighbour i attributes) r h = cc
on_route_lem q (new_route prefix attributes) r h =
    let read = ipv4_route_lem q prefix attributes r h in
    differs-IsAskedRoute q r (read.0) (read.1) (read.2)
on_route_lem q (new_address i attributes) r h = cc
on_route_lem q (new_link i attributes) r h = cc
on_route_lem q other_payload r h = cc

module _ (deserialize : List ℕ → Result Message IoError) (socket : NetlinkSocket)
    (request : List ℕ) where
  -- Whatever bytes the kernel sends and however they are decoded, every neighbour that `get_neighbors`
  -- returns has a MAC address of 6 bytes and is on the interface asked for, if one was.
  pub get_neighbors_lem :
      (if_index : Option ℕ) (out : List Neighbor)
      → get_neighbors deserialize socket request if_index ≡ done (ok out)
      → All (IsAskedNeighbour if_index) out
  unfolding get_neighbors
  get_neighbors_lem if_index out h =
      netlink-All deserialize (λ (m : Message). m.length)
        (λ (m : Message). ok (on_neighbour if_index m.payload)) (IsAskedNeighbour if_index)
        (λ m n e. on_neighbour_lem if_index m.payload n (ok-some e)) socket request out h

  -- Whatever bytes the kernel sends and however they are decoded, every route that `get_ipv4_routes`
  -- returns has an output interface, which is the one asked for, if one was.
  pub get_ipv4_routes_lem :
      (if_index : Option ℕ) (out : List Ipv4Route)
      → get_ipv4_routes deserialize socket request if_index ≡ done (ok out)
      → All (IsAskedRoute if_index) out
  unfolding get_ipv4_routes
  get_ipv4_routes_lem if_index out h =
      netlink-All deserialize (λ (m : Message). m.length)
        (λ (m : Message). ok (on_route if_index m.payload)) (IsAskedRoute if_index)
        (λ m r e. on_route_lem if_index m.payload r (ok-some e)) socket request out h
