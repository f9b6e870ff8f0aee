-- ===== src/Create/Aliased.antt =====
-- A created TX socket on which two frames are taken back by one call.
use xdp_rs.Prelude.{
  ℕ, ◌^◌, ◌≤◌, ◌≡◌, sym, ◌∙◌, arith, true, [], Bool, Option, Build, done, done-injective, Result,
  ok, IoError,
}
use xdp_rs.Libc.{Libc}
use xdp_rs.Mmap.{HugePageInfo, use_huge}
use xdp_rs.Ring.Const
use xdp_rs.Socket.{TxSocket}
use xdp_rs.Socket.Commit.{tx_commit_}
use xdp_rs.Socket.Seek.{tx_seek_}
use xdp_rs.Socket.Reclaim.{after}
use xdp_rs.Socket.Submit.{committed, head}
use xdp_rs.Socket.Ownership.Steps.{World, x_frame, Completes, IsOwned}
use xdp_rs.Socket.Ownership.Start.{first_frames}
use xdp_rs.Socket.Ownership.InOrder.{all_sent, two_back}
use xdp_rs.System.{Kernel, Process}
use xdp_rs.Create.{XdpConfig, huge_page_of, create_tx_socket}
use xdp_rs.Create.Honest.{Grants, IsNumbered}
use xdp_rs.Create.Made.{create_tx_lem}
use xdp_rs.Create.Apart.{ok-injective}

module _ (c : Libc) (k : Kernel) (info : Result HugePageInfo IoError) (b : Build)
    (if_index if_queue q : ℕ) (config : Option XdpConfig) (huge : Bool) (p : Process)
    (grants : Grants c k) (numbered : IsNumbered c) (page : k.page_size ≡ 2 ^ q) (small : q ≤ 30)
    (settled : use_huge (huge_page_of config) info ≡ ok huge) (checks : b.checks ≡ true) where
  -- Every TX socket that `create_tx_socket` returns comes to a state with two available slots that name
  -- one frame: when `commit_n(4096)` has handed over its slots, which succeeds, and the kernel has
  -- completed two frames, the second of them the one that was sent second, then `seek_n(2)` returns 2, and
  -- both available slots name that frame. The system grants every call, has UMEM pages of `2 ^ q` bytes,
  -- `q` at most 30, and four ring numbers; the huge page setting is decided, and the safety checks are
  -- compiled in.
  pub created_aliases :
      (t : TxSocket) (p' : Process) (v1 v2 : World)
      (first : Completes 12 (all_sent 12 (record { socket = t; held = [] })) v1)
      (second : Completes 12 v1 v2)
      → create_tx_socket c k info b if_index if_queue config p ≡ done (ok t, p')
      → second.a ≡ x_frame t (head 12 t 1)
      → (tx_commit_ b t 4096 ≡ done (ok tt, committed 4096 t))
        × (tx_seek_ b v2.socket 2 ≡ done (ok 2, after 12 2 v2.socket))
        × (x_frame (after 12 2 v2.socket) (head 12 (after 12 2 v2.socket) 0) ≡ second.a)
        × (x_frame (after 12 2 v2.socket) (head 12 (after 12 2 v2.socket) 1) ≡ second.a)
  created_aliases t p' v1 v2 first second ran in_order =
      let made =
        create_tx_lem c k info b if_index if_queue q config huge p grants numbered page small
          settled in
      let same : made.0 ≡ t = ok-injective (done-injective (sym (made.2) ∙ ran)) in
      let owned : IsOwned 12 (first_frames Const.frame_count) (record { socket = t; held = [] }) =
        rw same at made.3 in
      let free : t.available ≡ Const.frame_count = rw same at made.4 in
      two_back b checks owned free v1 v2 first second (omega arith) in_order
