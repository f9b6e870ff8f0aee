-- ===== src/XdpTests/Addresses.antt =====
-- `FromStr` of the standard library for `Ipv4Addr` and `SocketAddrV4`, which the programs call on their
-- arguments. Text is a list of code points, an address a number of 32 bits.
use xdp_rs.Prelude.{
  ℕ, zero, suc, ◌+◌, ◌-◌, ◌*◌, Bool, false, ◌&&◌, ◌||◌, Option, none, some, [], ◌∷◌, length, ltb,
  leb, ◌==◌, if◌then◌else◌,
}
use xdp_rs.Prelude.Words.{u16_mod}
use xdp_rs.Mmap.Meminfo.{Text}

pub record SocketAddr : Type 0 where
  pub ip : ℕ
  pub port : ℕ

abbrev is_digit : ℕ → Bool
is_digit c = leb 48 c && leb c 57

-- The digits in front, and the rest.
abbrev pub digits : Text → Text
digits [] = []
digits (c ∷ cs) = let more = digits cs in if is_digit c then c ∷ more else []

abbrev pub after_digits : Text → Text
after_digits [] = []
after_digits (c ∷ cs) = let more = after_digits cs in if is_digit c then more else c ∷ cs

abbrev pub value : ℕ → Text → ℕ
value n [] = n
value n (c ∷ cs) = value (n * 10 + (c - 48)) cs

-- A 0 in front of other digits.
abbrev pub zero_prefix : Text → Bool
zero_prefix [] = false
zero_prefix (c ∷ []) = false
zero_prefix (c ∷ d ∷ cs) = c == 48

-- One number of an address: one to three digits, no 0 in front, below 256.
abbrev pub octet : Text → Option ℕ
octet ds =
    if length ds == 0 || ltb 3 (length ds) || zero_prefix ds || leb 256 (value 0 ds)
    then none
    else some (value 0 ds)

abbrev pub port : Text → Option ℕ
port ds = if length ds == 0 || leb u16_mod (value 0 ds) then none else some (value 0 ds)

-- A value read, and the text after it.
abbrev pub Read : Type 0
Read = Option (ℕ × Text)

abbrev pub with_rest : Option ℕ → Text → Read
with_rest none cs = none
with_rest (some n) cs = some (n, cs)

abbrev pub given_char : ℕ → Text → Option Text
given_char d [] = none
given_char d (c ∷ cs) = if c == d then some cs else none

-- `n` more numbers, each after a dot.
abbrev pub push_octet : (ℕ → Text → Read) → ℕ → Option ℕ → Text → Read
push_octet go acc none cs = none
push_octet go acc (some n) cs = go (acc * 256 + n) cs

abbrev pub after_dot : (Text → Read) → Option Text → Read
after_dot go none = none
after_dot go (some cs) = go cs

abbrev pub more_octets : ℕ → ℕ → Text → Read
more_octets zero acc cs = some (acc, cs)
more_octets (suc n) acc cs =
    after_dot (λ t. push_octet (more_octets n) acc (octet (digits t)) (after_digits t))
      (given_char 46 cs)

abbrev pub read_ipv4 : Text → Read
read_ipv4 cs = push_octet (more_octets 3) 0 (octet (digits cs)) (after_digits cs)

abbrev pub to_end : Read → Option ℕ
to_end none = none
to_end (some (n, [])) = some n
to_end (some (n, c ∷ cs)) = none

-- `Ipv4Addr::from_str`
unfoldable pub parse_ipv4 : Text → Option ℕ
parse_ipv4 cs = let read = to_end (read_ipv4 cs) in if ltb 15 (length cs) then none else read

abbrev pub with_port : ℕ → Option ℕ → Option SocketAddr
with_port ip none = none
with_port ip (some n) = some (record { ip = ip; port = n })

abbrev pub read_port : ℕ → Option Text → Option SocketAddr
read_port ip none = none
read_port ip (some cs) = with_port ip (to_end (with_rest (port (digits cs)) (after_digits cs)))

abbrev pub after_ip : Read → Option SocketAddr
after_ip none = none
after_ip (some (ip, cs)) = read_port ip (given_char 58 cs)

-- `SocketAddrV4::from_str`
unfoldable pub parse_socket_addr : Text → Option SocketAddr
parse_socket_addr cs = after_ip (read_ipv4 cs)
