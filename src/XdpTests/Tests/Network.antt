-- ===== src/XdpTests/Tests/Network.antt =====
-- A network on which the server of ponger.rs gets three datagrams, the second of them no text.
use xdp_rs.Prelude.{
  ℕ, zero, suc, ◌≡◌, refl, arith, true, false, [], ◌∷◌, done, panic, Result, ok, err, IoError, os,
}
use xdp_rs.Mmap.Meminfo.{Text}
use xdp_rs.XdpTests.Pinger.{ping}
use xdp_rs.XdpTests.Ponger.{Network, from_utf8, main}
use xdp_rs.XdpTests.Echoes.{Feeds, ends, next, main_lem}

-- The euro sign, and its first two bytes.
abbrev euro : Text
euro = 226 ∷ 130 ∷ 172 ∷ []

abbrev cut_short : Text
cut_short = 226 ∷ 130 ∷ []

abbrev received : ℕ → Result (Text × ℕ) IoError
received zero = ok (ping, 5)
received (suc zero) = ok (cut_short, 6)
received (suc (suc zero)) = ok (euro, 7)
received (suc (suc (suc n))) = err (os 111)

abbrev network : Network
network = record {
  bind = λ addr. ok tt;
  local_addr = ok tt;
  recv_from = received;
  send_to = λ i msg peer. ok tt;
}

feeds : Feeds network (os 111) 0 ((ping, 5) ∷ (cut_short, 6) ∷ (euro, 7) ∷ [])
feeds = next refl (next refl (next refl (ends refl)))

valid : from_utf8 euro ≡ true
unfolding from_utf8
valid = refl

-- An overlong form, a surrogate, and a number above the last code point.
overlong : from_utf8 (192 ∷ 128 ∷ []) ≡ false
unfolding from_utf8
overlong = refl

surrogate : from_utf8 (237 ∷ 160 ∷ 128 ∷ []) ≡ false
unfolding from_utf8
surrogate = refl

too_large : from_utf8 (244 ∷ 144 ∷ 128 ∷ 128 ∷ []) ≡ false
unfolding from_utf8
too_large = refl

no_name : main network 0 [] ≡ panic
unfolding main
no_name = refl

main_lem_example : main network 4 ([] ∷ [] ∷ []) ≡ done (err (os 111), (ping, 5) ∷ (euro, 7) ∷ [])
unfolding from_utf8
main_lem_example =
    main_lem network (os 111) 4 [] [] ((ping, 5) ∷ (cut_short, 6) ∷ (euro, 7) ∷ []) refl refl
      (λ k peer msg. refl) feeds (omega arith)
