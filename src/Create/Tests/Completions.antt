-- ===== src/Create/Tests/Completions.antt =====
-- A kernel that completes the first two of the packets that a new socket sent.
use xdp_rs.Prelude.{
  length-append, false, ℕ, suc, ◌+◌, ◌%◌, ◌^◌, ◌≡◌, refl, arith, none, List, [], ◌∷◌, done, ok,
  length, set,
}
use xdp_rs.Prelude.Words.{wrapping_add}
use xdp_rs.Ring.{with_area, with_producer}
use xdp_rs.Ring.Const
use xdp_rs.Socket.{TxSocket}
use xdp_rs.Socket.Commit.{tx_commit_}
use xdp_rs.Socket.Seek.{tx_seek_}
use xdp_rs.Socket.Reclaim.{after}
use xdp_rs.Socket.Submit.{committed, head}
use xdp_rs.Socket.Ownership.Window.{window, times, times-append, length-window}
use xdp_rs.Socket.Ownership.Steps.{World, x_frame, Completes, IsOwned}
use xdp_rs.Socket.Ownership.Start.{first_frames}
use xdp_rs.Socket.Ownership.InOrder.{all_sent}
use xdp_rs.System.{Process}
use xdp_rs.Create.{create_tx_socket}
use xdp_rs.Create.Made.{create_tx_lem}
use xdp_rs.Create.Aliased.{created_aliases}
use xdp_rs.Create.Tests.Systems.{build, libc, info, kernel, start, numbered, grants}

-- The state after the kernel completed the frame `a`, and holds `rest`.
abbrev one_back : ℕ → World → ℕ → List ℕ → World
one_back k v a rest = record {
  socket = record v.socket {
    u_ring =
        with_producer
          (with_area v.socket.u_ring
            (set v.socket.u_ring.mmap.desc (v.socket.u_ring.mmap.producer % 2 ^ k) a))
          (wrapping_add v.socket.u_ring.mmap.producer 1);
  };
  held = rest;
}

abbrev completing :
    (k : ℕ) (v : World) (a : ℕ) (rest : List ℕ)
    → ((x : ℕ) → times x v.held ≡ times x (a ∷ rest))
    → length v.held ≡ length rest + 1
    → Completes k v (one_back k v a rest)
completing k v a rest gave fewer = record {
  a = a;
  gave = gave;
  fewer = fewer;
  put = refl;
  index = refl;
  u_ptr = refl;
  u_len = refl;
  u_mask = refl;
  x_desc = refl;
  x_ptr = refl;
  x_len = refl;
  x_mask = refl;
  available = refl;
  producer = refl;
  consumer = refl;
  frames = refl;
  inner = refl;
}

times-window_first :
    (k : ℕ) (e : ℕ → ℕ) (p n x : ℕ)
    → times x (window k e p (suc n)) ≡ times x (e (p % 2 ^ k) ∷ window k e (p + 1) n)
unfolding window
times-window_first k e p n x = refl

made :
    (t : TxSocket) × (p' : Process) × (create_tx_socket libc kernel (ok info) build 2 0 none start
      ≡ done (ok t, p'))
    × IsOwned 12 (first_frames Const.frame_count) (record { socket = t; held = [] })
    × (t.available ≡ Const.frame_count)
made =
    create_tx_lem libc kernel (ok info) build 2 0 12 none false start grants numbered (omega arith)
      (omega arith) refl

abbrev t : TxSocket
t = made.0

abbrev sent : World
sent = all_sent 12 (record { socket = t; held = [] })

abbrev first_back : World
first_back =
    one_back 12 sent (x_frame t (t.producer % 4096)) (window 12 (x_frame t) (t.producer + 1) 4095)

abbrev second_back : World
second_back =
    one_back 12 first_back (x_frame t ((t.producer + 1) % 4096))
      (window 12 (x_frame t) (t.producer + 1 + 1) 4094)

abbrev first : Completes 12 sent first_back
first =
    completing 12 sent _ _
      (λ x. omega (
        arith,
        times-append x (window 12 (x_frame t) t.producer 4096) [],
        times-window_first 12 (x_frame t) t.producer 4095 x,
      ))
      (omega (
        arith,
        length-append (window 12 (x_frame t) t.producer 4096) [],
        length-window 12 (x_frame t) t.producer 4096,
        length-window 12 (x_frame t) (t.producer + 1) 4095,
      ))

abbrev second : Completes 12 first_back second_back
second =
    completing 12 first_back _ _ (λ x. times-window_first 12 (x_frame t) (t.producer + 1) 4094 x)
      (omega (
        arith,
        length-window 12 (x_frame t) (t.producer + 1) 4095,
        length-window 12 (x_frame t) (t.producer + 1 + 1) 4094,
      ))

created_aliases_example :
    (tx_commit_ build t 4096 ≡ done (ok tt, committed 4096 t))
    × (tx_seek_ build second_back.socket 2 ≡ done (ok 2, after 12 2 second_back.socket))
    × (x_frame (after 12 2 second_back.socket) (head 12 (after 12 2 second_back.socket) 0)
        ≡ x_frame t (head 12 t 1))
    × (x_frame (after 12 2 second_back.socket) (head 12 (after 12 2 second_back.socket) 1)
        ≡ x_frame t (head 12 t 1))
created_aliases_example =
    created_aliases libc kernel (ok info) build 2 0 12 none false start grants numbered
      (omega arith) (omega arith) refl refl t (made.1) first_back second_back first second (made.2)
      refl
