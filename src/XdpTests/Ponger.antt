-- ===== src/XdpTests/Ponger.antt =====
-- xdp-tests/src/ponger.rs. What the calls of its socket come to is a parameter.
use xdp_rs.Prelude.{
  ℕ, zero, suc, ◌+◌, Bool, true, false, ◌&&◌, Option, none, some, List, [], ◌∷◌, Run, done, panic,
  hang, Result, ok, err, IoError, other, ltb, leb, ◌==◌, if◌then◌else◌,
}
use xdp_rs.Mmap.Meminfo.{Text}
use xdp_rs.MacByIfindex.{first_of}

-- The UDP socket of tokio; `recv_from i` and `send_to i` are the replies behind `i` receptions: a datagram
-- and its sender, or an error.
pub record Network : Type 0 where
  pub bind : Text → Result (Unit {0}) IoError
  pub local_addr : Result (Unit {0}) IoError
  pub recv_from : ℕ → Result (Text × ℕ) IoError
  pub send_to : ℕ → Text → ℕ → Result (Unit {0}) IoError

-- `str::from_utf8` of the standard library, as a test. Which bytes may follow a first byte:
abbrev any_tail : ℕ × ℕ
any_tail = (128, 191)

abbrev three_tails : ℕ → Option (List (ℕ × ℕ))
three_tails c =
    if c == 240
    then some ((144, 191) ∷ any_tail ∷ any_tail ∷ [])
    else if ltb c 244
    then some (any_tail ∷ any_tail ∷ any_tail ∷ [])
    else if c == 244
    then some ((128, 143) ∷ any_tail ∷ any_tail ∷ [])
    else none

abbrev two_tails : ℕ → Option (List (ℕ × ℕ))
two_tails c =
    if c == 224
    then some ((160, 191) ∷ any_tail ∷ [])
    else if c == 237
    then some ((128, 159) ∷ any_tail ∷ [])
    else some (any_tail ∷ any_tail ∷ [])

abbrev tails : ℕ → Option (List (ℕ × ℕ))
tails c =
    if ltb c 128
    then some []
    else if ltb c 194
    then none
    else if ltb c 224
    then some (any_tail ∷ [])
    else if ltb c 240
    then two_tails c
    else three_tails c

abbrev valid_from : List (ℕ × ℕ) → Text → Bool
valid_from [] [] = true
valid_from (range ∷ ranges) [] = false
valid_from [] (c ∷ cs) = elim (tails c) [ none ↦ false | some ranges ↦ valid_from ranges cs ]
valid_from ((low, high) ∷ ranges) (c ∷ cs) =
    let rest = valid_from ranges cs in leb low c && leb c high && rest

unfoldable pub from_utf8 : Text → Bool
from_utf8 bytes = valid_from [] bytes

-- The result, and the datagrams sent, oldest first.
abbrev pub Echoed : Type 0
Echoed = Result (Unit {0}) IoError × List (Text × ℕ)

abbrev pub and_then : Text × ℕ → Run Echoed → Run Echoed
and_then sent (done (r, more)) = done (r, sent ∷ more)
and_then sent x = x

module _ (udp : Network) where
  -- The end of a round: `send_to(…)?`, and the rounds behind it.
  abbrev pub sent_back : Text × ℕ → Result (Unit {0}) IoError → Run Echoed → Run Echoed
  sent_back sent (err e) rest = done (err e, [])
  sent_back sent (ok _) rest = and_then sent rest

  -- A round with `len` bytes received.
  abbrev pub echo : ℕ → Text × ℕ → Run Echoed → Run Echoed
  echo i (msg, peer) rest =
      if from_utf8 msg then sent_back (msg, peer) (udp.send_to i msg peer) rest else rest

  -- The loop, from the `i`-th reception on; the buffer has 1024 bytes.
  unfoldable pub echo_loop : ℕ → ℕ → Run Echoed
  echo_loop zero i = hang
  echo_loop (suc fuel) i =
      let rest = echo_loop fuel (i + 1) in
      elim (udp.recv_from i) [
        | ok (datagram, peer) ↦ echo i (first_of 1024 datagram, peer) rest
        | err e ↦ done (err e, [])
      ]

  abbrev pub listening : ℕ → Result (Unit {0}) IoError → Run Echoed
  listening fuel (err e) = done (err e, [])
  listening fuel (ok _) = echo_loop fuel 0

  abbrev pub bound : ℕ → Result (Unit {0}) IoError → Run Echoed
  bound fuel (err e) = done (err e, [])
  bound fuel (ok _) = listening fuel udp.local_addr

  unfoldable pub main : ℕ → List Text → Run Echoed
  main fuel (name ∷ addr ∷ []) = bound fuel (udp.bind addr)
  main fuel [] = panic
  main fuel args = done (err (other "Invalid number of arguments"), [])
