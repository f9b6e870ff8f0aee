-- ===== src/Create/Released.antt =====
-- A creation that fails holds nothing.
use Prim.Native.String.{String}
use xdp_rs.Prelude.{
  ℕ, ◌≡◌, refl, sym, ap, ◌∙◌, Bool, Build, Option, Run, done, panic, fault, hang, Result, ok, err,
  IoError,
}
use xdp_rs.Libc.{Libc}
use xdp_rs.Mmap
use xdp_rs.Mmap.{OwnedMmap, HugePageInfo, owned, mmap_with, aligned, page_size, use_huge}
use xdp_rs.Ring.Const
use xdp_rs.System.{map_umem, area, Kernel, Process, acquired, after_run, last_os_error, map_err}
use xdp_rs.Create.{Direction, XdpConfig, huge_page_of, umem_area, setup_umem, create_socket}
use xdp_rs.Create.Balance.{held, IsSane, IsReal, Kept, Returns}
use xdp_rs.Create.Parts.{
  last_os_error-ok, tx_rings-IsBalanced, rx_rings-IsBalanced, set_sizes-IsBalanced,
  ring_offsets-IsBalanced, register-IsBalanced, bind_socket-IsBalanced, open_socket-IsBalanced,
}
use xdp_rs.Create.{bind_flags}
use xdp_rs.Prelude.{◌*◌, ◌>>=◌, done-injective}
use xdp_rs.Create.Accounts.{
  IsBalanced, IsClosed, closed-IsBalanced, pure-IsBalanced, acquired-Returns, bind-IsBalanced,
  scoped-IsClosed,
}

map_err-ok :
    {A : Type 0} (m : String) (r : Result A IoError) (a : A) → map_err m r ≡ ok a → r ≡ ok a
map_err-ok m (ok b) a h = cc
map_err-ok m (err e) a h = cc

owned-ok :
    (page : ℕ) (map : ℕ → Bool → Result ℕ IoError) (n : ℕ) (r : Result ℕ IoError) (m : OwnedMmap)
    → owned page map n r ≡ ok m
    → r ≡ ok m.ptr
owned-ok page map n (ok p) m h =
    let inside : record { ptr = p; size = n } ≡ m = cc in ap (λ (x : OwnedMmap). ok x.ptr) inside
owned-ok page map n (err e) m h = cc

-- The address of a UMEM area is one that the system gave.
map-ok :
    (page : ℕ) (map : ℕ → Bool → Result ℕ IoError) (huge : Bool) (x : Run ℕ) (m : OwnedMmap)
    → (x >>= λ n. done (owned page map n (map n huge))) ≡ done (ok m)
    → (n : ℕ) × (map n huge ≡ ok m.ptr)
map-ok page map huge (done n) m h = (n, owned-ok page map n (map n huge) m (done-injective h))
map-ok page map huge panic m h = cc
map-ok page map huge fault m h = cc
map-ok page map huge hang m h = cc

mmap_with-ok :
    (page : ℕ) (map : ℕ → Bool → Result ℕ IoError) (b : Build) (size : ℕ)
    (decided : Result Bool IoError) (m : OwnedMmap)
    → mmap_with page map b size decided ≡ done (ok m)
    → (n : ℕ) × (huge : Bool) × (map n huge ≡ ok m.ptr)
mmap_with-ok page map b size (err e) m h = cc
mmap_with-ok page map b size (ok huge) m h =
    let r = map-ok page map huge (aligned b size (page_size page huge)) m h in (r.0, huge, r.1)

module _ (c : Libc) (k : Kernel) (info : Result HugePageInfo IoError) (sane : IsSane c k) where
  area-Returns :
      (x : Run (Result OwnedMmap IoError)) (p : Process)
      → ((m : OwnedMmap) → x ≡ done (ok m) → IsReal c (area m.ptr m.size))
      → held p.log ≡ p.live
      → Returns
          (λ r q. Kept c p.live q)
          (after_run
            (λ r.
              acquired
                (λ (m : OwnedMmap). map_umem m.ptr m.size)
                (λ (m : OwnedMmap). area m.ptr m.size)
                (map_err "Failed to allocate UMEM: " r)
                p)
            x)
  area-Returns (done r) p real h =
      acquired-Returns c _ _ _ p (λ m log. refl)
        (λ m made. real m (ap done (map_err-ok "Failed to allocate UMEM: " r m made))) h
  area-Returns panic p real h = tt
  area-Returns fault p real h = tt
  area-Returns hang p real h = tt

  mmap-IsReal :
      (b : Build) (config : Option XdpConfig) (p : Process) (m : OwnedMmap)
      → Mmap.mmap k.page_size
          (λ n huge. last_os_error (k.map_memory p.log n huge))
          b
          (Const.frame_count * Const.frame_size)
          (huge_page_of config)
          info
        ≡ done (ok m)
      → IsReal c (area m.ptr m.size)
  unfolding Mmap.mmap
  mmap-IsReal b config p m made =
      let given = mmap_with-ok k.page_size _ b _ _ m made in
      sane.memory p.log (given.0) (given.1) m.ptr (last_os_error-ok _ _ (given.2))

  umem_area-IsBalanced :
      (b : Build) (config : Option XdpConfig) → IsBalanced c (umem_area c k info b config)
  umem_area-IsBalanced b config = record {
    keeps = λ p h. area-Returns _ p (λ m made. mmap-IsReal b config p m made) h;
  }

  setup_umem-IsClosed :
      (b : Build) (fd : ℕ) (config : Option XdpConfig)
      → IsClosed c (setup_umem c k info b fd config)
  unfolding setup_umem
  setup_umem-IsClosed b fd config = scoped-IsClosed c (
      bind-IsBalanced c (umem_area-IsBalanced b config)
        (λ umem. bind-IsBalanced c (register-IsBalanced c k fd umem) (λ _. pure-IsBalanced c umem)))

  pub create_socket-IsClosed :
      (b : Build) (if_index if_queue : ℕ) (d : Direction) (config : Option XdpConfig)
      → IsClosed c (create_socket c k info b if_index if_queue d config)
  unfolding create_socket
  create_socket-IsClosed b if_index if_queue d config = scoped-IsClosed c (
      bind-IsBalanced c (open_socket-IsBalanced c k) (λ fd.
        bind-IsBalanced c (closed-IsBalanced c (setup_umem-IsClosed b fd config)) (λ umem.
          bind-IsBalanced c (set_sizes-IsBalanced c k fd d) (λ _.
            bind-IsBalanced c (ring_offsets-IsBalanced c k fd) (λ o.
              bind-IsBalanced c (tx_rings-IsBalanced c k sane b fd o d) (λ t.
                bind-IsBalanced c (rx_rings-IsBalanced c k sane b fd o d) (λ r.
                  bind-IsBalanced c
                    (bind_socket-IsBalanced c k fd (bind_flags c config) if_index if_queue)
                    (λ _. pure-IsBalanced c _))))))))

  -- If successful mappings are neither null nor `MAP_FAILED`, and the account of the process is right
  -- before the call, then whenever `create_socket` returns an error, in any build and whatever the
  -- kernel's replies, the log accounts for exactly the resources held before: every socket and every
  -- area that was acquired has been given back.
  pub create_socket_released :
      (b : Build) (if_index if_queue : ℕ) (d : Direction) (config : Option XdpConfig)
      (p p' : Process) (e : IoError)
      → held p.log ≡ p.live
      → create_socket c k info b if_index if_queue d config p ≡ done (err e, p')
      → (held p'.log ≡ held p.log) × (p'.live ≡ p.live)
  create_socket_released b if_index if_queue d config p p' e h failed =
      let left = (create_socket-IsClosed b if_index if_queue d config).leaves p h in
      let gone = rw failed at left in (gone.0 ∙ sym h, gone.1)
