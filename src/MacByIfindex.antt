-- ===== src/MacByIfindex.antt =====
-- xdp-util/src/mac_by_ifindex.rs. What the calls of libc come to is a parameter.
pub mod Closing
mod Tests
use xdp_rs.Prelude.{
  ℕ, zero, suc, ◌+◌, Option, none, some, List, [], ◌∷◌, Result, ok, err, IoError, os, replicate,
  set,
}
use xdp_rs.System.{Call, socket, close}

-- The replies: a socket or an error number; the name of the interface and the address data, or an error
-- number; and the error number that a failed `close` leaves. A `c_char` is the byte that it is cast to.
pub record Device : Type 0 where
  pub open_socket : List Call → Result ℕ ℕ
  pub siocgifname : ℕ → ℕ → Result (List ℕ) ℕ
  pub siocgifhwaddr : ℕ → List ℕ → Result (List ℕ) ℕ
  pub close_errno : List Call → ℕ → Option ℕ

-- `[..n]`
abbrev pub first_of : ℕ → List ℕ → List ℕ
first_of zero xs = []
first_of (suc n) [] = []
first_of (suc n) (x ∷ xs) = x ∷ first_of n xs

-- The loop over the enumerated bytes.
abbrev pub put_each : ℕ → List ℕ → List ℕ → List ℕ
put_each i [] result = result
put_each i (v ∷ vs) result = put_each (i + 1) vs (set result i v)

-- `errno` when it is read, after the socket was closed.
abbrev pub last_errno : ℕ → Option ℕ → ℕ
last_errno e none = e
last_errno e (some e') = e'

module _ (d : Device) where
  -- `libc::close(socket_fd); return Err(io::Error::last_os_error())`
  abbrev pub close_and_fail : ℕ → ℕ → List Call → Result (List ℕ) IoError × List Call
  close_and_fail fd e log = (err (os (last_errno e (d.close_errno log fd))), close fd ∷ log)

  abbrev pub with_data : ℕ → List Call → Result (List ℕ) ℕ → Result (List ℕ) IoError × List Call
  with_data fd log (err e) = close_and_fail fd e log
  with_data fd log (ok sa_data) =
      (ok (put_each 0 (first_of 6 sa_data) (replicate 6 0)), close fd ∷ log)

  abbrev pub with_name : ℕ → List Call → Result (List ℕ) ℕ → Result (List ℕ) IoError × List Call
  with_name fd log (err e) = close_and_fail fd e log
  with_name fd log (ok name) = with_data fd log (d.siocgifhwaddr fd name)

  abbrev pub with_socket : ℕ → List Call → Result ℕ ℕ → Result (List ℕ) IoError × List Call
  with_socket if_index log (err e) = (err (os e), log)
  with_socket if_index log (ok fd) = with_name fd (socket fd ∷ log) (d.siocgifname fd if_index)

  unfoldable pub mac_by_ifindex : ℕ → List Call → Result (List ℕ) IoError × List Call
  mac_by_ifindex if_index log = with_socket if_index log (d.open_socket log)
