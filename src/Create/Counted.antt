-- ===== src/Create/Counted.antt =====
-- The first calls of the RX socket of a pair.
use xdp_rs.Prelude.{
  ℕ, ◌^◌, ◌≤◌, ◌≡◌, sym, ap, ◌∙◌, true, Bool, Option, Build, done, done-injective, Result, ok,
  IoError,
}
use xdp_rs.Libc.{Libc}
use xdp_rs.Mmap.{HugePageInfo, use_huge}
use xdp_rs.Socket.{TxSocket, RxSocket}
use xdp_rs.Socket.Api
use xdp_rs.Socket.Valid.{IsRx}
use xdp_rs.Socket.Receive.{unread}
use xdp_rs.Socket.Fresh.{IsNew, counts_all}
use xdp_rs.System.{Kernel, Process}
use xdp_rs.Create.{XdpConfig, huge_page_of, create_bi_socket}
use xdp_rs.Create.Honest.{Grants, IsNumbered}
use xdp_rs.Create.Both.{create_bi_lem}
use xdp_rs.Create.Apart.{ok-injective}

module _ (c : Libc) (k : Kernel) (info : Result HugePageInfo IoError) (b : Build)
    (if_index if_queue q : ℕ) (config : Option XdpConfig) (huge : Bool) (p : Process)
    (grants : Grants c k) (numbered : IsNumbered c) (page : k.page_size ≡ 2 ^ q) (small : q ≤ 30)
    (settled : use_huge (huge_page_of config) info ≡ ok huge) (checks : b.checks ≡ true) where
  -- The RX socket of every pair that `create_bi_socket` returns counts packets that were not received:
  -- with nothing unread, `seek` returns 1 and changes nothing, and `commit` succeeds; it moves the RX
  -- ring's consumer index to 1, past the producer index, and the Fill ring's producer index from 2048
  -- back to 1. The system grants every call, has UMEM pages of `2 ^ q` bytes, `q` at most 30, and four
  -- ring numbers; the huge page setting is decided, and the safety checks are compiled in.
  pub created_counts_all :
      (t : TxSocket) (r : RxSocket) (p' : Process)
      → create_bi_socket c k info b if_index if_queue config p ≡ done (ok (t, r), p')
      → (unread r ≡ 0)
        × (r.u_ring.mmap.producer ≡ 2048)
        × (Api.seek b r ≡ done (ok 1, r))
        × (s' : RxSocket) × (Api.commit b r ≡ done (ok tt, s'))
        × (s'.x_ring.mmap.consumer ≡ 1)
        × (s'.u_ring.mmap.producer ≡ 1)
  created_counts_all t r p' ran =
      let made =
        create_bi_lem c k info b if_index if_queue q config huge p grants numbered page small
          settled in
      let same : done (ok (made.0, made.1), made.2) ≡ done (ok (t, r), p') = sym (made.3) ∙ ran in
      let same_r : made.1 ≡ r = ap (λ z. z.1) (ok-injective (done-injective same)) in
      let valid : IsRx 11 r = rw same_r at made.6 in
      let indices : IsNew 2048 r = rw same_r at made.11 in
      let counted = counts_all b valid checks indices in
      (
        rw same_r at made.7,
        rw same_r at made.9,
        counted.0,
        counted.1,
        counted.2,
        counted.3,
        counted.4,
      )
