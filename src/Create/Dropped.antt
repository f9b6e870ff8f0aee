-- ===== src/Create/Dropped.antt =====
-- What the drop of a socket gives back. The fields of a socket are dropped in order: its share of
-- `Inner`, whose UMEM goes before its descriptor, then the two rings.
use xdp_rs.Prelude.{
  ℕ, ◌+◌, ◌≤◌, ◌≡◌, refl, ap, arith, List, [], ◌∷◌, Bool, true, false, Option, none, some,
  Bool-cases, inl, inr,
}
use xdp_rs.Libc.{Libc}
use xdp_rs.Mmap.{OwnedMmap}
use xdp_rs.Mmap.Owned.{drop_mmap}
use xdp_rs.Ring.{Ring, XdpDesc}
use xdp_rs.Socket.{Socket, TxSocket, RxSocket, Inner, new, tx, rx}
use xdp_rs.System.{Call, close, Resource, area, descriptor}
use xdp_rs.Create.Balance.{held, same, without}

module _ (c : Libc) where
  -- `last`: no other socket shares the `Inner`.
  abbrev pub drop_inner : Bool → Option Inner → List Call → List Call
  drop_inner last none log = log
  drop_inner false (some inner) log = log
  drop_inner true (some inner) log = close inner.fd ∷ drop_mmap c inner.umem log

  unfoldable pub drop_socket : {t : Bool} → Bool → Socket t → List Call → List Call
  drop_socket last s log =
      drop_mmap c s.u_ring.mmap.mmap (drop_mmap c s.x_ring.mmap.mmap (drop_inner last s.inner log))

abbrev pub mapped : OwnedMmap → Resource
mapped m = area m.ptr m.size

-- What a socket gives back when it is dropped.
abbrev pub Owns : Type 0
Owns = Option Inner × OwnedMmap × OwnedMmap

abbrev pub owns : {t : Bool} → Socket t → Owns
owns s = (s.inner, s.x_ring.mmap.mmap, s.u_ring.mmap.mmap)

-- After the creation of a socket, the process holds its rings and what its `Inner` owns, and no more.
abbrev pub Holds : {t : Bool} → Socket t → List Call → List Call → Type 0
Holds s before after =
    (inner : Inner) × (s.inner ≡ some inner)
    × (held after
        ≡ mapped s.x_ring.mmap.mmap
          ∷ mapped s.u_ring.mmap.mmap
          ∷ mapped inner.umem
          ∷ descriptor inner.fd
          ∷ held before)

-- After the creation of a pair, the process holds the rings of both, and once what their `Inner` owns.
abbrev pub HoldsPair : TxSocket → RxSocket → List Call → List Call → Type 0
HoldsPair t r before after =
    (inner : Inner) × (t.inner ≡ some inner)
    × (r.inner ≡ some inner)
    × (held after
        ≡ mapped r.u_ring.mmap.mmap
          ∷ mapped r.x_ring.mmap.mmap
          ∷ mapped t.x_ring.mmap.mmap
          ∷ mapped t.u_ring.mmap.mmap
          ∷ mapped inner.umem
          ∷ descriptor inner.fd
          ∷ held before)

pub new-HoldsPair :
    (inner : Inner) (x x' : Ring XdpDesc) (u u' : Ring ℕ) (before after : List Call)
    → held after
      ≡ mapped u'.mmap.mmap
        ∷ mapped x'.mmap.mmap
        ∷ mapped x.mmap.mmap
        ∷ mapped u.mmap.mmap
        ∷ mapped inner.umem
        ∷ descriptor inner.fd
        ∷ held before
    → HoldsPair (new tx (some inner) x u) (new rx (some inner) x' u') before after
unfolding new
new-HoldsPair inner x x' u u' before after h = (inner, refl, refl, h)

pub new-Holds :
    (inner : Inner) (x : Ring XdpDesc) (u : Ring ℕ) (before after : List Call)
    → held after
      ≡ mapped x.mmap.mmap
        ∷ mapped u.mmap.mmap
        ∷ mapped inner.umem
        ∷ descriptor inner.fd
        ∷ held before
    → Holds (new tx (some inner) x u) before after
unfolding new
new-Holds inner x u before after h = (inner, refl, h)

abbrev pub one : Bool → ℕ
one true = 1
one false = 0

-- How many times a resource is held.
abbrev pub copies : Resource → List Resource → ℕ
copies r [] = 0
copies r (x ∷ rest) = copies r rest + one (same r x)

same_resource : (x y : Resource) → same x y ≡ true → x ≡ y
same_resource (area p n) (area p' n') h =
    let ptr : p ≡ p' = ground arith in let size : n ≡ n' = ground arith in rw (ptr, size) refl
same_resource (area p n) (descriptor fd) h = cc
same_resource (descriptor fd) (area p n) h = cc
same_resource (descriptor fd) (descriptor fd') h = let e : fd ≡ fd' = ground arith in rw e refl

same_self : (x : Resource) → same x x ≡ true
same_self (area p n) = ground arith
same_self (descriptor fd) = ground arith

copies-without :
    (r x : Resource) (l : List Resource)
    → 1 ≤ copies x l
    → copies r (without x l) + one (same r x) ≡ copies r l
copies-without r x [] h = absurd (omega arith)
copies-without r x (y ∷ rest) h = elim (Bool-cases (same x y)) [
  | inl here ↦ rw (here, same_resource x y here) refl
  | inr away ↦ rw away (omega (arith, copies-without r x rest (omega (arith, h, ap one away)), h))
]

-- Several resources given back in turn.
abbrev pub without_all : List Resource → List Resource → List Resource
without_all [] l = l
without_all (x ∷ xs) l = without_all xs (without x l)

-- Resources that are given back in whatever order.
pub all_back :
    (gone others l : List Resource)
    → ((r : Resource) → copies r l ≡ copies r gone + copies r others)
    → (r : Resource) → copies r (without_all gone l) ≡ copies r others
all_back [] others l h r = omega (arith, h r)
all_back (x ∷ xs) others l h r =
    let there : 1 ≤ copies x l = omega (arith, h x, ap one (same_self x)) in
    all_back xs others (without x l) (λ z. omega (arith, h z, copies-without z x l there)) r
