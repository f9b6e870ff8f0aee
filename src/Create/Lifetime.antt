-- ===== src/Create/Lifetime.antt =====
-- A TX socket from its creation to its drop.
use xdp_rs.Prelude.{
  ℕ, ◌^◌, ◌≤◌, ◌≡◌, refl, sym, ap, ◌∙◌, arith, List, [], ◌∷◌, Bool, true, false, ◌||◌, Option, none,
  some, Build, done, done-injective, Result, ok, IoError, length, ◌==◌,
}
use xdp_rs.Libc.{Libc}
use xdp_rs.Mmap.{OwnedMmap, HugePageInfo, use_huge}
use xdp_rs.Mmap.Owned.{drop_mmap}
use xdp_rs.Socket.{Socket, TxSocket, Inner}
use xdp_rs.System.{Call, unmap, Resource, descriptor, Kernel, Process}
use xdp_rs.Create.{XdpConfig, huge_page_of, tx, create_socket, create_tx_socket}
use xdp_rs.Create.Honest.{Grants, IsNumbered}
use xdp_rs.Create.Made.{create_socket_tx}
use xdp_rs.Create.Balance.{held, without, IsReal, IsSane, Above, base, more, Kept}
use xdp_rs.Create.Apart.{ok-injective}
use xdp_rs.Create.Released.{create_socket-IsClosed}
use xdp_rs.Create.Dropped.{Owns, owns, drop_socket, mapped, Holds, copies, all_back}

module _ (c : Libc) where
  pub Above-top :
      {old live : List Resource} {r : Resource}
      → Above c old (r ∷ live)
      → length old ≤ length live
      → IsReal c r × Above c old live
  Above-top base h = absurd (omega arith)
  Above-top (more real y) h = (real, y)

  pub real_drop :
      (m : OwnedMmap) (log : List Call)
      → IsReal c (mapped m)
      → drop_mmap c m log ≡ unmap m.ptr m.size ∷ log
  unfolding drop_mmap
  real_drop m log (some_ptr, given) =
      let real : (m.ptr == c.map_failed || m.ptr == 0) ≡ false = ground (arith, some_ptr, given) in
      rw real refl

  pub drop_socket_lem :
      {t : Bool} (s : Socket t) (inner : Inner) (log : List Call)
      → s.inner ≡ some inner
      → IsReal c (mapped s.x_ring.mmap.mmap)
      → IsReal c (mapped s.u_ring.mmap.mmap)
      → IsReal c (mapped inner.umem)
      → held (drop_socket c true s log)
        ≡ without (mapped s.u_ring.mmap.mmap) (
            without
              (mapped s.x_ring.mmap.mmap)
              (without (descriptor inner.fd) (without (mapped inner.umem) (held log))))
  unfolding drop_socket
  drop_socket_lem s inner log shared x u m =
      rw
        (
          shared,
          real_drop inner.umem log m,
          real_drop s.x_ring.mmap.mmap _ x,
          real_drop s.u_ring.mmap.mmap _ u,
        )
        refl

  -- A socket that holds exactly what was acquired since gives it all back.
  dropped_lem :
      {t : Bool} (s : Socket t) (p p' : Process) (r : Resource)
      → Holds s p.log p'.log
      → held p.log ≡ p.live
      → Kept c p.live p'
      → copies r (held (drop_socket c true s p'.log)) ≡ copies r (held p.log)
  dropped_lem s p p' r (inner, shared, holds) account kept =
      let live : p'.live
          ≡ mapped s.x_ring.mmap.mmap
            ∷ mapped s.u_ring.mmap.mmap
            ∷ mapped inner.umem
            ∷ descriptor inner.fd
            ∷ p.live =
        sym kept.account
        ∙ (holds
            ∙ ap
                (λ l.
                  mapped s.x_ring.mmap.mmap
                  ∷ mapped s.u_ring.mmap.mmap
                  ∷ mapped inner.umem
                  ∷ descriptor inner.fd
                  ∷ l)
                account) in
      let above = rw live at kept.above in
      let first = Above-top above (omega arith) in
      let second = Above-top (first.1) (omega arith) in
      let third = Above-top (second.1) (omega arith) in
      rw (drop_socket_lem s inner p'.log shared (first.0) (second.0) (third.0), holds)
        (all_back
          (mapped inner.umem
            ∷ descriptor inner.fd
            ∷ mapped s.x_ring.mmap.mmap
            ∷ mapped s.u_ring.mmap.mmap
            ∷ [])
          (held p.log)
          (mapped s.x_ring.mmap.mmap
            ∷ mapped s.u_ring.mmap.mmap
            ∷ mapped inner.umem
            ∷ descriptor inner.fd
            ∷ held p.log)
          (λ z. omega arith) r)

Holds-moved :
    (t s : TxSocket) (before after log : List Call)
    → owns s ≡ owns t
    → held log ≡ held after
    → Holds t before after
    → Holds s before log
Holds-moved t s before after log same_areas same_held (inner, shared, holds) =
    let x : t.x_ring.mmap.mmap ≡ s.x_ring.mmap.mmap = ap (λ (o : Owns). o.1) (sym same_areas) in
    let u : t.u_ring.mmap.mmap ≡ s.u_ring.mmap.mmap = ap (λ (o : Owns). o.2) (sym same_areas) in
    (inner, ap (λ (o : Owns). o.0) same_areas ∙ shared, same_held ∙ (rw (x, u) at holds))

module _ (c : Libc) (k : Kernel) (info : Result HugePageInfo IoError) (b : Build)
    (if_index if_queue q : ℕ) (config : Option XdpConfig) (huge : Bool) (p : Process)
    (grants : Grants c k) (numbered : IsNumbered c) (page : k.page_size ≡ 2 ^ q) (small : q ≤ 30)
    (settled : use_huge (huge_page_of config) info ≡ ok huge) where
  -- A socket that was created and used, with other calls made meanwhile that gave back what they took, is
  -- dropped: its fields are those that it was made with.
  pub used_dropped :
      (t s : TxSocket) (p' : Process) (log : List Call) (r : Resource)
      → IsSane c k
      → held p.log ≡ p.live
      → create_tx_socket c k info b if_index if_queue config p ≡ done (ok t, p')
      → owns s ≡ owns t
      → held log ≡ held p'.log
      → copies r (held (drop_socket c true s log)) ≡ copies r (held p.log)
  unfolding create_tx_socket
  used_dropped t s p' log r sane account ran same_areas same_held =
      let made =
        create_socket_tx c k info b if_index if_queue q config huge p grants numbered page small
          settled in
      let closed =
        (create_socket-IsClosed c k info sane b if_index if_queue tx config).leaves p account in
      let kept = rw made.2 at closed in
      let same = sym (created made.2) ∙ ran in
      let same_t : made.0 ≡ t = ok-injective (done-injective same) in
      let same_p : made.1 ≡ p' = ap (λ z. z.1) (done-injective same) in
      let kept' : Kept c p.live p' = rw same_p at kept in
      let held_by : Holds t p.log p'.log = rw same_p at (rw same_t at made.5) in
      dropped_lem c s p (record { log = log; live = p'.live }) r
        (Holds-moved t s p.log p'.log log same_areas same_held held_by) account
        (record { account = same_held ∙ kept'.account; above = kept'.above })
    where
      created :
          {t : TxSocket} {p' : Process}
          → create_socket c k info b if_index if_queue tx config p ≡ done (ok (some t, none), p')
          → create_tx_socket c k info b if_index if_queue config p ≡ done (ok t, p')
      created made = rw made refl

  -- The creation and the drop of a TX socket leave the process with what it held before: with every call
  -- granted, a UMEM page size of `2 ^ q` bytes, `q` at most 30, the four rings numbered apart, the huge
  -- page setting decided, successful mappings neither null nor `MAP_FAILED`, and the account of the
  -- process right before the call, each descriptor and each area is held as often after the socket that
  -- `create_tx_socket` returned was dropped as before it was made.
  pub created_dropped :
      (t : TxSocket) (p' : Process) (r : Resource)
      → IsSane c k
      → held p.log ≡ p.live
      → create_tx_socket c k info b if_index if_queue config p ≡ done (ok t, p')
      → copies r (held (drop_socket c true t p'.log)) ≡ copies r (held p.log)
  created_dropped t p' r sane account ran = used_dropped t t p' p'.log r sane account ran refl refl
