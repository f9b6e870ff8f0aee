-- ===== src/XdpTests/Meanwhile.antt =====
-- What the kernel does to a TX socket while a program of xdp-tests sleeps.
use xdp_rs.Prelude.{ℕ, ◌≡◌, refl, ◌∙◌, List}
use xdp_rs.Socket.{TxSocket}
use xdp_rs.Socket.Ownership.Steps.{World, IsOwned, Completes}
use xdp_rs.Create.Dropped.{owns}
use xdp_rs.Socket.Ownership.Kernel.{completes-IsOwned}

-- Any number of completions.
pub data Completed (k : ℕ) (v : World) : World → Type 0 where
  none_yet : Completed k v v
  one_more : {u u' : World} → Completed k v u → Completes k u u' → Completed k v u'

-- In every round, the kernel does nothing to the shared rings but complete frames that it holds.
abbrev pub OnlyCompletes : ℕ → (ℕ → TxSocket → TxSocket) → Type 0
OnlyCompletes k meanwhile =
    (i : ℕ) (v : World) → (v' : World) × (v'.socket ≡ meanwhile i v.socket) × Completed k v v'

pub Completed-IsOwned :
    {k : ℕ} {all : List ℕ} {v v' : World} → IsOwned k all v → Completed k v v' → IsOwned k all v'
Completed-IsOwned o none_yet = o
Completed-IsOwned o (one_more past now) = completes-IsOwned (Completed-IsOwned o past) now

pub owns-Completed : {k : ℕ} {v v' : World} → Completed k v v' → owns v'.socket ≡ owns v.socket
owns-Completed none_yet = refl
owns-Completed (one_more past now) = rw (now.inner, now.x_ptr, now.u_ptr) (owns-Completed past)

pub available-Completed :
    {k : ℕ} {v v' : World} → Completed k v v' → v'.socket.available ≡ v.socket.available
available-Completed none_yet = refl
available-Completed (one_more past now) = now.available ∙ available-Completed past
