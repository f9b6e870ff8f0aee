-- ===== src/Socket/Fresh.antt =====
-- A socket straight after `Socket::new`.
use native.Mathlib.Nat.{mod-eq_of_lt}
use xdp_rs.Prelude.{ℕ, ◌^◌, ◌≤◌, ◌≡◌, refl, true, false, arith, Build, done, ok, some, leb, ltb}
use xdp_rs.Prelude.Words.{as_u32, pow-lt_u32, pow_pos}
use xdp_rs.Ring.{Ring, XdpDesc}
use xdp_rs.Ring.Const
use xdp_rs.Ring.Access.{IsRing}
use xdp_rs.Ring.Bytes.{umem_size}
use xdp_rs.Socket.{Inner, RxSocket, new, tx, rx}
use xdp_rs.Socket.Api
use xdp_rs.Socket.Seek.{seek_, rx_seek_}
use xdp_rs.Socket.Commit.{commit_}
use xdp_rs.Socket.Receive.{unread}
use xdp_rs.Socket.Releasing.{rx_commit_lem, released}
use xdp_rs.Socket.Reclaim.{pending}
use xdp_rs.Socket.Valid.{IsTx, IsRx}

module _ (k : ℕ) (inner : Inner) (x : Ring XdpDesc) (u : Ring ℕ) (wx : IsRing k x) (wu : IsRing k u)
    (few : 2 ^ k ≤ Const.frame_count) (umem : umem_size ≤ inner.umem.size) where
  counted : as_u32 x.len ≡ 2 ^ k
  counted = rw wx.len (mod-eq_of_lt (pow-lt_u32 k wx.small))

  -- A TX socket made from two mapped rings of one size, at most `FRAME_COUNT`, and a UMEM of all
  -- frames is valid, and every slot of its TX ring is available; if the Completion ring's producer
  -- index is 0, nothing is pending.
  pub new-IsTx :
      u.mmap.producer ≡ 0
      → IsTx k (new tx (some inner) x u)
        × ((new tx (some inner) x u).available ≡ 2 ^ k)
        × (pending (new tx (some inner) x u) ≡ 0)
  unfolding new
  new-IsTx start = (
    record {
      x = wx;
      u = wu;
      few = few;
      room = omega (arith, counted);
      p_word = omega arith;
      c_word = omega arith;
      umem = umem;
    },
    counted,
    rw start refl,
  )

  pub new-IsRx : IsRx k (new rx (some inner) x u)
  unfolding new
  new-IsRx = record {
    x = wx;
    u = wu;
    few = few;
    room = omega (arith, counted);
    p_word = omega arith;
    c_word = omega arith;
    umem = umem;
  }

  -- A new RX socket counts every slot of its RX ring as a received packet. With nothing received
  -- (producer index 0) `seek` still returns 1 and changes nothing; and `commit` succeeds, with the
  -- safety checks compiled in: it moves the RX ring's consumer index to 1, past the producer index,
  -- and sets the Fill ring's producer index to 1, whatever it was.
  pub fresh_counts_all :
      (b : Build)
      → b.checks ≡ true
      → x.mmap.producer ≡ 0
      → (unread (new rx (some inner) x u) ≡ 0)
        × (Api.seek b (new rx (some inner) x u) ≡ done (ok 1, new rx (some inner) x u))
        × (s' : RxSocket) × (Api.commit b (new rx (some inner) x u) ≡ done (ok tt, s'))
        × (s'.x_ring.mmap.consumer ≡ 1)
        × (s'.u_ring.mmap.producer ≡ 1)
  unfolding new Api.seek Api.commit seek_ commit_ rx_seek_
  fresh_counts_all b checks start = (
    rw start refl,
    (let enough : leb 1 (as_u32 x.len) ≡ true = ground (arith, counted, pow_pos k) in rw enough),
    released k 1 (new rx (some inner) x u),
    (let enough : ltb (as_u32 x.len) 1 ≡ false = ground (arith, counted, pow_pos k) in
        rw (rx_commit_lem new-IsRx b 1 checks, enough)),
    refl,
    refl,
  )

-- What `new` sets in a socket of `n` slots.
abbrev pub IsNew : ℕ → RxSocket → Type 0
IsNew n s = (s.available ≡ n) × (s.producer ≡ 0) × (s.consumer ≡ 0)

pub new-IsNew :
    (k : ℕ) (inner : Inner) (x : Ring XdpDesc) (u : Ring ℕ)
    → IsRing k x
    → IsNew (2 ^ k) (new rx (some inner) x u)
unfolding new
new-IsNew k inner x u w = (rw w.len (mod-eq_of_lt (pow-lt_u32 k w.small)), refl, refl)

-- A valid RX socket with indices 0 that counts every slot as a received packet: `seek` returns 1 and
-- changes nothing, and `commit` succeeds, with the safety checks compiled in, and sets the indices to 1.
pub counts_all :
    {k : ℕ} {s : RxSocket} (b : Build)
    → IsRx k s
    → b.checks ≡ true
    → IsNew (2 ^ k) s
    → (Api.seek b s ≡ done (ok 1, s))
      × (s' : RxSocket) × (Api.commit b s ≡ done (ok tt, s'))
      × (s'.x_ring.mmap.consumer ≡ 1)
      × (s'.u_ring.mmap.producer ≡ 1)
unfolding Api.seek Api.commit seek_ commit_ rx_seek_
counts_all {k} {s} b w checks (full, first, start) =
    let enough : leb 1 s.available ≡ true = ground (arith, full, pow_pos k) in
    let enough' : ltb s.available 1 ≡ false = ground (arith, full, pow_pos k) in
    (
      rw enough refl,
      released k 1 s,
      rw (rx_commit_lem w b 1 checks, enough') refl,
      rw start refl,
      rw first refl,
    )
