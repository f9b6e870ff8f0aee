-- ===== src/Socket/Ownership/Kernel.antt =====
-- A completion by the kernel keeps each frame in one place.
use xdp_rs.Prelude.{
  ℕ, ◌+◌, ◌%◌, ◌^◌, ◌<◌, ◌≡◌, sym, ap, ◌∙◌, arith, List, [], ◌∷◌, ◌++◌, refl, length,
  get_or-set_self, get_or-set_ne, length-set,
}
use xdp_rs.Prelude.Words.{u32_mod, wrap-mod, pow-lt_u32}
use xdp_rs.Ring.Access.{slot-lt}
use xdp_rs.Socket.{TxSocket}
use xdp_rs.Socket.Reclaim.{pending}
use xdp_rs.Socket.Valid.{IsTx}
use xdp_rs.Socket.Ownership.Window.{
  window, times, window_congr, window_split, times-append, slots_differ,
}
use xdp_rs.Socket.Ownership.Steps.{World, u_frame, ready, finished, Completes, IsOwned}

module _ {k : ℕ} {all : List ℕ} {v v' : World} (o : IsOwned k all v) (c : Completes k v v') where
  abbrev s : TxSocket
  s = v.socket

  abbrev s' : TxSocket
  s' = v'.socket

  space : pending s < 2 ^ k
  space = omega (arith, o.balance, c.fewer)

  valid' : IsTx k s'
  valid' = record {
    x = record {
      small = o.valid.x.small;
      ptr = rw c.x_ptr (o.valid.x.ptr);
      len = c.x_len ∙ o.valid.x.len;
      mask = c.x_mask ∙ o.valid.x.mask;
      area = ap length c.x_desc ∙ o.valid.x.area;
    };
    u = record {
      small = o.valid.u.small;
      ptr = rw c.u_ptr (o.valid.u.ptr);
      len = c.u_len ∙ o.valid.u.len;
      mask = c.u_mask ∙ o.valid.u.mask;
      area = ap length c.put ∙ (length-set s.u_ring.mmap.desc _ c.a ∙ o.valid.u.area);
    };
    few = o.valid.few;
    room = rw c.available (o.valid.room);
    p_word = rw c.producer (o.valid.p_word);
    c_word = rw c.consumer (o.valid.c_word);
    umem = rw c.frames (o.valid.umem);
  }

  pub more : pending s' ≡ pending s + 1
  more =
      rw (c.index, c.consumer)
        (omega (arith, space, o.word, o.valid.c_word, pow-lt_u32 k o.valid.x.small))

  -- The slot that the kernel writes to is the one after the pending entries.
  put_slot : s.u_ring.mmap.producer % 2 ^ k ≡ (s.consumer + pending s) % 2 ^ k
  put_slot =
      let e : s.u_ring.mmap.producer ≡ (s.consumer + pending s) % u32_mod =
        omega (arith, o.word, o.valid.c_word) in
      ap (λ (t : ℕ). t % 2 ^ k) e
      ∙ wrap-mod k (s.consumer + pending s) (omega (arith, o.valid.x.small))

  pub same_ready : ready k s' ≡ ready k s
  same_ready = rw (c.x_desc, c.producer, c.available)

  old_entries : window k (u_frame s') s.consumer (pending s) ≡ finished k s
  old_entries = window_congr k (u_frame s') (u_frame s) s.consumer (pending s) (λ j hj. entry j hj)
    where
      entry :
          (j : ℕ)
          → j < pending s
          → u_frame s' ((s.consumer + j) % 2 ^ k) ≡ u_frame s ((s.consumer + j) % 2 ^ k)
      entry j hj = rw c.put (
          get_or-set_ne s.u_ring.mmap.desc (s.u_ring.mmap.producer % 2 ^ k)
            ((s.consumer + j) % 2 ^ k) c.a 0
            (λ e. slots_differ k s.consumer j (pending s) hj space (sym (sym put_slot ∙ e))))

  pub new_entry : u_frame s' ((s.consumer + pending s) % 2 ^ k) ≡ c.a
  new_entry =
      rw (c.put, put_slot)
        (get_or-set_self s.u_ring.mmap.desc ((s.consumer + pending s) % 2 ^ k) c.a 0
          (omega (arith, o.valid.u.area, slot-lt o.valid.u (s.consumer + pending s))))

  -- The completed frame comes after those that were finished before.
  pub finished_next : finished k s' ≡ finished k s ++ (c.a ∷ [])
  unfolding window
  finished_next =
      rw (more, c.consumer)
        (window_split k (u_frame s') s.consumer (pending s) 1 ∙ rw (old_entries, new_entry) refl)

  -- A completion keeps each frame in one place.
  pub completes-IsOwned : IsOwned k all v'
  completes-IsOwned = record {
    valid = valid';
    word = rw c.index (omega arith);
    balance = omega (arith, o.balance, c.fewer, more, c.available);
    conserved = λ a. omega (
      arith,
      o.conserved a,
      c.gave a,
      times-append a (finished k s) (c.a ∷ []),
      ap (times a) finished_next,
      ap (times a) same_ready,
    );
  }
