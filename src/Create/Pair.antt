-- ===== src/Create/Pair.antt =====
-- The sockets of a pair from their creation to their drop. The last of the two to be dropped holds the
-- last share of the `Inner`.
use xdp_rs.Prelude.{
  ℕ, ◌^◌, ◌≤◌, ◌≡◌, refl, sym, ap, ◌∙◌, arith, List, [], ◌∷◌, Bool, true, false, Option, none, some,
  Build, done, done-injective, Result, ok, IoError,
}
use xdp_rs.Libc.{Libc}
use xdp_rs.Mmap.{HugePageInfo, use_huge}
use xdp_rs.Socket.{Socket, TxSocket, RxSocket, Inner}
use xdp_rs.System.{Call, Resource, descriptor, Kernel, Process}
use xdp_rs.Create.{XdpConfig, huge_page_of, both, ok_or_else, create_bi_socket}
use xdp_rs.Create.Honest.{Grants, IsNumbered}
use xdp_rs.Create.Both.{create_bi_lem}
use xdp_rs.Create.Balance.{held, IsReal, IsSane, base, Kept}
use xdp_rs.Create.Accounts.{IsBalanced, closed-IsBalanced, pure-IsBalanced, bind-IsBalanced}
use xdp_rs.Create.Apart.{ok-injective}
use xdp_rs.Create.Released.{create_socket-IsClosed}
use xdp_rs.Create.Dropped.{drop_socket, mapped, HoldsPair, copies, without_all, all_back}
use xdp_rs.Create.Lifetime.{Above-top, real_drop, drop_socket_lem}

module _ (c : Libc) where
  -- The drop of a socket whose `Inner` is shared gives back its two rings alone.
  shared_drop_lem :
      {t : Bool} (s : Socket t) (inner : Inner) (log : List Call)
      → s.inner ≡ some inner
      → IsReal c (mapped s.x_ring.mmap.mmap)
      → IsReal c (mapped s.u_ring.mmap.mmap)
      → held (drop_socket c false s log)
        ≡ without_all (mapped s.x_ring.mmap.mmap ∷ mapped s.u_ring.mmap.mmap ∷ []) (held log)
  unfolding drop_socket
  shared_drop_lem s inner log shared x u =
      rw (shared, real_drop c s.x_ring.mmap.mmap _ x, real_drop c s.u_ring.mmap.mmap _ u) refl

  -- `first` is dropped, then `second`; `before` is the log of the calls before the creation of the two,
  -- `after` that before the drops.
  pub record InTurn {t t' : Bool} (first : Socket t) (second : Socket t') (before after : List Call)
      : Type 0 where
    pub inner : Inner
    pub shared : second.inner ≡ some inner
    pub survives :
        (r : Resource)
        → copies r (held (drop_socket c false first after))
          ≡ copies r (
              mapped second.x_ring.mmap.mmap
              ∷ mapped second.u_ring.mmap.mmap
              ∷ mapped inner.umem
              ∷ descriptor inner.fd
              ∷ held before)
    pub gone :
        (r : Resource)
        → copies r (held (drop_socket c true second (drop_socket c false first after)))
          ≡ copies r (held before)

  -- Two sockets that share an `Inner`, when what is held is what they hold and what was held before.
  shared-InTurn :
      {t t' : Bool} (first : Socket t) (second : Socket t') (inner : Inner)
      (before after : List Call)
      → first.inner ≡ some inner
      → second.inner ≡ some inner
      → IsReal c (mapped first.x_ring.mmap.mmap)
      → IsReal c (mapped first.u_ring.mmap.mmap)
      → IsReal c (mapped second.x_ring.mmap.mmap)
      → IsReal c (mapped second.u_ring.mmap.mmap)
      → IsReal c (mapped inner.umem)
      → ((r : Resource)
          → copies r (held after)
            ≡ copies r (
                mapped first.x_ring.mmap.mmap
                ∷ mapped first.u_ring.mmap.mmap
                ∷ mapped second.x_ring.mmap.mmap
                ∷ mapped second.u_ring.mmap.mmap
                ∷ mapped inner.umem
                ∷ descriptor inner.fd
                ∷ held before))
      → InTurn first second before after
  shared-InTurn first second inner before after e e' x u x' u' m all =
      let left =
        mapped second.x_ring.mmap.mmap
        ∷ mapped second.u_ring.mmap.mmap
        ∷ mapped inner.umem
        ∷ descriptor inner.fd
        ∷ held before in
      let survives : (r : Resource)
          → copies r (held (drop_socket c false first after)) ≡ copies r left =
        λ r. rw (shared_drop_lem first inner after e x u) (
          all_back (mapped first.x_ring.mmap.mmap ∷ mapped first.u_ring.mmap.mmap ∷ []) left
            (held after) (λ z. omega (arith, all z)) r) in
      record {
        inner = inner;
        shared = e';
        survives = survives;
        gone = λ r.
            rw (drop_socket_lem c second inner (drop_socket c false first after) e' x' u' m) (
              all_back
                (mapped inner.umem
                  ∷ descriptor inner.fd
                  ∷ mapped second.x_ring.mmap.mmap
                  ∷ mapped second.u_ring.mmap.mmap
                  ∷ [])
                (held before) (held (drop_socket c false first after))
                (λ z. omega (arith, survives z)) r);
      }

  -- In either order.
  pair-InTurn :
      (t : TxSocket) (r : RxSocket) (p p' : Process)
      → HoldsPair t r p.log p'.log
      → held p.log ≡ p.live
      → Kept c p.live p'
      → InTurn t r p.log p'.log × InTurn r t p.log p'.log
  pair-InTurn t r p p' (inner, e, e', holds) account kept =
      let live : p'.live
          ≡ mapped r.u_ring.mmap.mmap
            ∷ mapped r.x_ring.mmap.mmap
            ∷ mapped t.x_ring.mmap.mmap
            ∷ mapped t.u_ring.mmap.mmap
            ∷ mapped inner.umem
            ∷ descriptor inner.fd
            ∷ p.live =
        sym kept.account ∙ (rw account at holds) in
      let above = rw live at kept.above in
      let first = Above-top c above (omega arith) in
      let second = Above-top c (first.1) (omega arith) in
      let third = Above-top c (second.1) (omega arith) in
      let fourth = Above-top c (third.1) (omega arith) in
      let fifth = Above-top c (fourth.1) (omega arith) in
      (
        shared-InTurn t r inner p.log p'.log e e' (third.0) (fourth.0) (second.0) (first.0)
            (fifth.0) (λ z. rw holds (omega arith)),
        shared-InTurn r t inner p.log p'.log e' e (second.0) (first.0) (third.0) (fourth.0)
            (fifth.0) (λ z. rw holds (omega arith)),
      )

module _ (c : Libc) where
  ok_or_else-IsBalanced : {A : Type 0} (a : Option A) (e : IoError) → IsBalanced c (ok_or_else a e)
  ok_or_else-IsBalanced none e = record { keeps = λ p h. record { account = h; above = base } }
  ok_or_else-IsBalanced (some a) e = pure-IsBalanced c a

  create_bi_socket-IsBalanced :
      (k : Kernel) (info : Result HugePageInfo IoError) (b : Build) (if_index if_queue : ℕ)
      (config : Option XdpConfig)
      → IsSane c k
      → IsBalanced c (create_bi_socket c k info b if_index if_queue config)
  unfolding create_bi_socket
  create_bi_socket-IsBalanced k info b if_index if_queue config sane =
      bind-IsBalanced c
        (closed-IsBalanced c (create_socket-IsClosed c k info sane b if_index if_queue both config))
        (λ made. bind-IsBalanced c (ok_or_else-IsBalanced (made.0) _) (λ t.
          bind-IsBalanced c (ok_or_else-IsBalanced (made.1) _) (λ r. pure-IsBalanced c (t, r))))

module _ (c : Libc) (k : Kernel) (info : Result HugePageInfo IoError) (b : Build)
    (if_index if_queue q : ℕ) (config : Option XdpConfig) (huge : Bool) (p : Process)
    (grants : Grants c k) (numbered : IsNumbered c) (page : k.page_size ≡ 2 ^ q) (small : q ≤ 30)
    (settled : use_huge (huge_page_of config) info ≡ ok huge) where
  -- The two sockets of a pair, dropped in either order: the drop of the first gives back its two rings
  -- and nothing else, so that what the process holds is the rings of the other, the UMEM and the
  -- descriptor that they share, and what it held before the creation; the drop of the second gives back
  -- the rest. Each descriptor and each area is then held as often as before `create_bi_socket`. With every
  -- call granted, a UMEM page size of `2 ^ q` bytes, `q` at most 30, the four rings numbered apart, the
  -- huge page setting decided, successful mappings neither null nor `MAP_FAILED`, and the account of the
  -- process right before the call.
  pub pair_dropped :
      (t : TxSocket) (r : RxSocket) (p' : Process)
      → IsSane c k
      → held p.log ≡ p.live
      → create_bi_socket c k info b if_index if_queue config p ≡ done (ok (t, r), p')
      → InTurn c t r p.log p'.log × InTurn c r t p.log p'.log
  pair_dropped t r p' sane account ran =
      let made =
        create_bi_lem c k info b if_index if_queue q config huge p grants numbered page small
          settled in
      let same : done (ok (made.0, made.1), made.2) ≡ done (ok (t, r), p') = sym (made.3) ∙ ran in
      let same_t : made.0 ≡ t = ap (λ z. z.0) (ok-injective (done-injective same)) in
      let same_r : made.1 ≡ r = ap (λ z. z.1) (ok-injective (done-injective same)) in
      let same_p : made.2 ≡ p' = ap (λ z. z.1) (done-injective same) in
      let shares = rw same_p at (rw same_r at (rw same_t at made.10)) in
      let returns =
        (create_bi_socket-IsBalanced c k info b if_index if_queue config sane).keeps p account in
      pair-InTurn c t r p p' shares account (rw ran at returns)
