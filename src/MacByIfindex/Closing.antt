-- ===== src/MacByIfindex/Closing.antt =====
-- The socket of `mac_by_ifindex` is closed again.
use xdp_rs.Prelude.{ℕ, ◌≡◌, refl, arith, true, List, ◌∷◌, Result, ok, err}
use xdp_rs.System.{Call, socket, close, descriptor}
use xdp_rs.Create.Balance.{held, same}
use xdp_rs.MacByIfindex.{Device, with_data, with_name, with_socket, mac_by_ifindex}

module _ (d : Device) (log : List Call) (fd : ℕ) where
  opened_and_closed : held (close fd ∷ socket fd ∷ log) ≡ held log
  opened_and_closed =
      let own : same (descriptor fd) (descriptor fd) ≡ true = ground arith in rw own refl

  with_data_lem : (r : Result (List ℕ) ℕ) → held (with_data d fd (socket fd ∷ log) r).1 ≡ held log
  with_data_lem (err e) = opened_and_closed
  with_data_lem (ok sa) = opened_and_closed

  with_name_lem : (r : Result (List ℕ) ℕ) → held (with_name d fd (socket fd ∷ log) r).1 ≡ held log
  with_name_lem (err e) = opened_and_closed
  with_name_lem (ok name) = with_data_lem (d.siocgifhwaddr fd name)

with_socket_lem :
    (d : Device) (if_index : ℕ) (log : List Call) (r : Result ℕ ℕ)
    → held (with_socket d if_index log r).1 ≡ held log
with_socket_lem d if_index log (err e) = refl
with_socket_lem d if_index log (ok fd) = with_name_lem d log fd (d.siocgifname fd if_index)

-- Whatever the calls come to, `mac_by_ifindex` leaves open what was open before: its socket is closed
-- on every path.
pub mac_by_ifindex_closes :
    (d : Device) (if_index : ℕ) (log : List Call)
    → held (mac_by_ifindex d if_index log).1 ≡ held log
unfolding mac_by_ifindex
mac_by_ifindex_closes d if_index log = with_socket_lem d if_index log (d.open_socket log)
