-- ===== src/XdpTests/Echoes.antt =====
-- What the server of xdp-tests/src/ponger.rs sends.
use xdp_rs.Prelude.{
  ℕ, zero, suc, ap, ◌∙◌, ◌+◌, ◌<◌, ◌≡◌, refl, arith, Bool-cases, inl, inr, List, [], ◌∷◌, done, ok,
  err, IoError, length, if◌then◌else◌,
}
use xdp_rs.Mmap.Meminfo.{Text}
use xdp_rs.MacByIfindex.{first_of}
use xdp_rs.XdpTests.Ponger.{Network, from_utf8, echo_loop, listening, bound, main}

-- The first 1024 bytes of each datagram that are valid UTF-8, back to its sender.
abbrev pub echoes : List (Text × ℕ) → List (Text × ℕ)
echoes [] = []
echoes ((datagram, peer) ∷ rest) =
    let more = echoes rest in
    if from_utf8 (first_of 1024 datagram) then (first_of 1024 datagram, peer) ∷ more else more

module _ (udp : Network) where
  -- From the `i`-th reception on, these datagrams come in, and then an error.
  pub data Feeds (e : IoError) : ℕ → List (Text × ℕ) → Type 0 where
    ends : {i : ℕ} → udp.recv_from i ≡ err e → Feeds e i []
    next :
        {i : ℕ} {d : Text × ℕ} {ds : List (Text × ℕ)}
        → udp.recv_from i ≡ ok d
        → Feeds e (i + 1) ds
        → Feeds e i (d ∷ ds)

  echo_loop_lem :
      (e : IoError) (fuel i : ℕ) (ds : List (Text × ℕ))
      → ((k peer : ℕ) (msg : Text) → udp.send_to k msg peer ≡ ok tt)
      → Feeds e i ds
      → length ds < fuel
      → echo_loop udp fuel i ≡ done (err e, echoes ds)
  unfolding echo_loop
  echo_loop_lem e zero i ds sends feeds enough = absurd (omega arith)
  echo_loop_lem e (suc fuel) i [] sends (ends last) enough = rw (echo_loop, last) refl
  echo_loop_lem e (suc fuel) i ((datagram, peer) ∷ ds) sends (next came feeds) enough =
      let rest = echo_loop_lem e fuel (i + 1) ds sends feeds (omega arith) in
      elim (Bool-cases (from_utf8 (first_of 1024 datagram))) [
        | inl valid ↦ rw (echo_loop, came, rest, valid, sends) refl
        | inr invalid ↦ rw (echo_loop, came, rest, invalid) refl
      ]

  -- The server, started with its address, on a network where the socket can be bound and named and every
  -- `send_to` succeeds: when the datagrams `ds` have come in and then an error, it has sent back to each
  -- sender, in order, the first 1024 bytes of its datagram, whatever they say, where they are valid UTF-8,
  -- and nothing else; and it ends with that error. The loop has fuel for more rounds than datagrams.
  pub main_lem :
      (e : IoError) (fuel : ℕ) (name addr : Text) (ds : List (Text × ℕ))
      → udp.bind addr ≡ ok tt
      → udp.local_addr ≡ ok tt
      → ((k peer : ℕ) (msg : Text) → udp.send_to k msg peer ≡ ok tt)
      → Feeds e 0 ds
      → length ds < fuel
      → main udp fuel (name ∷ addr ∷ []) ≡ done (err e, echoes ds)
  unfolding main
  main_lem e fuel name addr ds binds named sends feeds enough =
      ap (bound udp fuel) binds
      ∙ (ap (listening udp fuel) named ∙ echo_loop_lem e fuel 0 ds sends feeds enough)
