-- ===== src/Netlink/Links.antt =====
-- The closures of `get_links` and `get_ipv4_address` in xdp-util/src/netlink.rs.
use Prim.Native.String.{String}
use xdp_rs.Prelude.{
  ℕ, ◌≡◌, refl, Bool, true, false, Option, none, some, List, [], ◌∷◌, length, replicate, ◌==◌,
  if◌then◌else◌, Bool-cases, inl, inr,
}
use xdp_rs.Netlink

pub record Link : Type 0 where
  pub if_index : ℕ
  pub name : String
  pub mtu : ℕ
  pub mac : List ℕ

-- The attributes of a link message that the closure tells apart.
pub data LinkAttribute : Type 0 where
  if_name : String → LinkAttribute
  mtu_of : ℕ → LinkAttribute
  address : List ℕ → LinkAttribute
  unread_link : LinkAttribute

-- The loop over the attributes: `none` is its early return.
unfoldable pub read_link : Link → List LinkAttribute → Option Link
read_link l [] = some l
read_link l (if_name s ∷ rest) = read_link (record l { name = s }) rest
read_link l (mtu_of n ∷ rest) = read_link (record l { mtu = n }) rest
read_link l (address mac ∷ rest) =
    let next = read_link (record l { mac = mac }) rest in if length mac == 6 then next else none
read_link l (unread_link ∷ rest) = read_link l rest

-- The closure on a new link of interface `i`.
unfoldable pub link : ℕ → List LinkAttribute → Option Link
link i attributes =
    read_link (record { if_index = i; name = ""; mtu = 0; mac = replicate 6 0 }) attributes

-- The attributes of an address message that the closure of `get_ipv4_address` tells apart.
pub data AddressAttribute : Type 0 where
  v4 : ℕ → AddressAttribute
  unread_address : AddressAttribute

unfoldable pub first_v4 : ℕ → List AddressAttribute → Option (ℕ × ℕ)
first_v4 i [] = none
first_v4 i (v4 ip ∷ rest) = some (ip, i)
first_v4 i (unread_address ∷ rest) = first_v4 i rest

-- The closure on a new address of interface `i`.
unfoldable pub ipv4_address : Option ℕ → ℕ → List AddressAttribute → Option (ℕ × ℕ)
ipv4_address if_index i attributes =
    if Netlink.differs if_index i then none else first_v4 i attributes

-- What the attributes say of each field, in order.
abbrev pub names : List LinkAttribute → List String
names [] = []
names (if_name s ∷ rest) = s ∷ names rest
names (mtu_of n ∷ rest) = names rest
names (address mac ∷ rest) = names rest
names (unread_link ∷ rest) = names rest

abbrev pub mtus : List LinkAttribute → List ℕ
mtus [] = []
mtus (if_name s ∷ rest) = mtus rest
mtus (mtu_of n ∷ rest) = n ∷ mtus rest
mtus (address mac ∷ rest) = mtus rest
mtus (unread_link ∷ rest) = mtus rest

abbrev pub macs : List LinkAttribute → List (List ℕ)
macs [] = []
macs (if_name s ∷ rest) = macs rest
macs (mtu_of n ∷ rest) = macs rest
macs (address mac ∷ rest) = mac ∷ macs rest
macs (unread_link ∷ rest) = macs rest

abbrev pub last_or : {A : Type 0} → A → List A → A
last_or d [] = d
last_or d (x ∷ xs) = last_or x xs

abbrev pub all_six : List (List ℕ) → Bool
all_six [] = true
all_six (mac ∷ rest) = if length mac == 6 then all_six rest else false

read_link_lem :
    (l : Link) (attributes : List LinkAttribute)
    → read_link l attributes ≡ (
        if all_six (macs attributes)
        then some (record {
          if_index = l.if_index;
          name = last_or l.name (names attributes);
          mtu = last_or l.mtu (mtus attributes);
          mac = last_or l.mac (macs attributes);
        })
        else none)
unfolding read_link
read_link_lem l [] = refl
read_link_lem l (if_name s ∷ rest) = read_link_lem _ rest
read_link_lem l (mtu_of n ∷ rest) = read_link_lem _ rest
read_link_lem l (address mac ∷ rest) = elim (Bool-cases (length mac == 6)) [
  | inl six ↦ rw (read_link, six) (read_link_lem _ rest)
  | inr odd ↦ rw (read_link, odd) refl
]
read_link_lem l (unread_link ∷ rest) = read_link_lem l rest

-- A new link of interface `i` is reported unless one of its hardware addresses is not 6 bytes long; the
-- name, the MTU and the MAC address are the last ones that the message has, and the empty name, 0 and
-- six zeros where it has none.
pub link_lem :
    (i : ℕ) (attributes : List LinkAttribute)
    → link i attributes ≡ (
        if all_six (macs attributes)
        then some (record {
          if_index = i;
          name = last_or "" (names attributes);
          mtu = last_or 0 (mtus attributes);
          mac = last_or (replicate 6 0) (macs attributes);
        })
        else none)
unfolding link
link_lem i attributes = read_link_lem _ attributes
